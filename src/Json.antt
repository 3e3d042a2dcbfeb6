-- ===== src/Json.antt =====
-- The values that `json.loads` returns and `json.dumps` takes, and what the program does with them:
-- `isinstance`, truth, `==` with a number, `d.get(k)`, `d[k] = v`, `d.update(e)`, `d.setdefault`.
--
-- `json.loads` and `json.dumps` themselves are arguments where they are called.
pub mod Dict
use gardena_matter_mqtt_brid.Base.{
  ℕ, zero, suc, ◌+◌, ◌*◌, ◌^◌, ◌≡◌, refl, ap, Bool, true, false, not, ◌&&◌, Option, none, some,
  List, [], ◌∷◌, ◌==◌, if◌then◌else◌,
}
use gardena_matter_mqtt_brid.Text.{Str, str_eq}

-- `negsuc n` is -(n + 1).
pub data ℤ : Type 0 where
  pos : ℕ → ℤ
  negsuc : ℕ → ℤ

-- A binary floating-point number: `scaled m e` is m * 2 ^ e.
pub data Float : Type 0 where
  scaled : ℤ → ℤ → Float
  infinite : Bool → Float
  nan : Float

mutual
  pub data Json : Type 0 where
    null : Json
    bool : Bool → Json
    int : ℤ → Json
    float : Float → Json
    string : Str → Json
    arr : Items → Json
    obj : Fields → Json

  pub data Items : Type 0 where
    nil : Items
    cons : Json → Items → Items

  pub data Fields : Type 0 where
    end : Fields
    field : Str → Json → Fields → Fields

abbrev pub items : Items → List Json
items nil = []
items (cons v r) = v ∷ items r

abbrev pub of_items : List Json → Items
of_items [] = nil
of_items (v ∷ l) = cons v (of_items l)

abbrev pub entries : Fields → List (Str × Json)
entries end = []
entries (field k v r) = (k, v) ∷ entries r

abbrev pub of_entries : List (Str × Json) → Fields
of_entries [] = end
of_entries ((k, v) ∷ l) = field k v (of_entries l)

pub entries-of_entries : (l : List (Str × Json)) → entries (of_entries l) ≡ l
entries-of_entries [] = refl
entries-of_entries ((k, v) ∷ l) = ap (λ (r : List (Str × Json)). (k, v) ∷ r) (entries-of_entries l)

-- A dict and a list written out.
abbrev pub dict : List (Str × Json) → Json
dict l = obj (of_entries l)

abbrev pub list : List Json → Json
list l = arr (of_items l)

-- `isinstance(value, dict)`, `isinstance(value, list)`, `isinstance(value, str)`
abbrev pub is_dict : Json → Bool
is_dict (obj f) = true
is_dict _ = false

abbrev pub is_str : Json → Bool
is_str (string s) = true
is_str _ = false

-- `value == n` for a natural number: a bool counts as 0 or 1, and a float may be whole.
abbrev pub float_is : Float → ℕ → Bool
float_is (scaled (pos m) (pos e)) n = m * 2 ^ e == n
float_is (scaled (pos m) (negsuc e)) n = m == n * 2 ^ suc e
float_is (scaled (negsuc m) e) n = false
float_is (infinite sign) n = false
float_is nan n = false

unfoldable pub equals_nat : Json → ℕ → Bool
equals_nat (bool b) n = (if b then 1 else 0) == n
equals_nat (int (pos m)) n = m == n
equals_nat (float x) n = float_is x n
equals_nat _ n = false

-- `value == text`
unfoldable pub equals_str : Json → Str → Bool
equals_str (string s) t = str_eq s t
equals_str _ t = false

-- `bool(value)`
unfoldable pub truthy : Json → Bool
truthy null = false
truthy (bool b) = b
truthy (int (pos zero)) = false
truthy (int _) = true
truthy (float x) = not (float_is x 0)
truthy (string []) = false
truthy (string _) = true
truthy (arr nil) = false
truthy (arr _) = true
truthy (obj end) = false
truthy (obj _) = true
