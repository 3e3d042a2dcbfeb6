-- ===== src/Discover/InTime.antt =====
-- The discovery of the mowers gives up in time.
use gardena_matter_mqtt_brid.Json.{Json}
use gardena_matter_mqtt_brid.Transport.InTime.{Ends}
