-- ===== src/BanchoState/Geoip.antt =====
-- core/domain/geoip/src/lib.rs and core/domain/bancho_state/src/lib.rs: where a connection comes
-- from, and the messages of the RPC interface that carry it. In a message each field may be missing.
use peace.Base.{ℕ, ◌≡◌, refl, Option, none, some, List, []}

abbrev Text : Type 0
Text = List ℕ

-- A float is the number of its bits.
pub record Location : Type 0 where
  pub latitude : ℕ
  pub longitude : ℕ
  pub timezone : Text

pub record Continent : Type 0 where
  pub geoname_id : ℕ
  pub code : Text
  pub name : Text

pub record Country : Type 0 where
  pub geoname_id : ℕ
  pub code : Text
  pub name : Text

pub record Region : Type 0 where
  pub geoname_id : ℕ
  pub code : Text
  pub name : Text

pub record City : Type 0 where
  pub geoname_id : ℕ
  pub name : Text

pub record GeoipData : Type 0 where
  pub location : Location
  pub continent : Continent
  pub country : Country
  pub region : Region
  pub city : City

pub record RpcLocation : Type 0 where
  pub latitude : Option ℕ
  pub longitude : Option ℕ
  pub timezone : Option Text

pub record RpcContinent : Type 0 where
  pub geoname_id : Option ℕ
  pub code : Option Text
  pub name : Option Text

pub record RpcCountry : Type 0 where
  pub geoname_id : Option ℕ
  pub code : Option Text
  pub name : Option Text

pub record RpcRegion : Type 0 where
  pub geoname_id : Option ℕ
  pub code : Option Text
  pub name : Option Text

pub record RpcCity : Type 0 where
  pub geoname_id : Option ℕ
  pub name : Option Text

pub record RpcGeoipData : Type 0 where
  pub location : Option RpcLocation
  pub continent : Option RpcContinent
  pub country : Option RpcCountry
  pub region : Option RpcRegion
  pub city : Option RpcCity

-- `unwrap_or_default`
abbrev pub or_default {ℓ} : {A : Type ℓ} → A → Option A → A
or_default d none = d
or_default d (some a) = a

abbrev no_location : RpcLocation
no_location = record { latitude = none; longitude = none; timezone = none }

abbrev no_continent : RpcContinent
no_continent = record { geoname_id = none; code = none; name = none }

abbrev no_country : RpcCountry
no_country = record { geoname_id = none; code = none; name = none }

abbrev no_region : RpcRegion
no_region = record { geoname_id = none; code = none; name = none }

abbrev no_city : RpcCity
no_city = record { geoname_id = none; name = none }

abbrev pub no_geoip_data : RpcGeoipData
no_geoip_data = record {
  location = none;
  continent = none;
  country = none;
  region = none;
  city = none;
}

unfoldable pub location_from : RpcLocation → Location
location_from r = record {
  latitude = or_default 0 r.latitude;
  longitude = or_default 0 r.longitude;
  timezone = or_default [] r.timezone;
}

unfoldable pub location_into : Location → RpcLocation
location_into v = record {
  latitude = some v.latitude;
  longitude = some v.longitude;
  timezone = some v.timezone;
}

unfoldable pub continent_from : RpcContinent → Continent
continent_from r = record {
  geoname_id = or_default 0 r.geoname_id;
  code = or_default [] r.code;
  name = or_default [] r.name;
}

unfoldable pub continent_into : Continent → RpcContinent
continent_into v = record { geoname_id = some v.geoname_id; code = some v.code; name = some v.name }

unfoldable pub country_from : RpcCountry → Country
country_from r = record {
  geoname_id = or_default 0 r.geoname_id;
  code = or_default [] r.code;
  name = or_default [] r.name;
}

unfoldable pub country_into : Country → RpcCountry
country_into v = record { geoname_id = some v.geoname_id; code = some v.code; name = some v.name }

unfoldable pub region_from : RpcRegion → Region
region_from r = record {
  geoname_id = or_default 0 r.geoname_id;
  code = or_default [] r.code;
  name = or_default [] r.name;
}

unfoldable pub region_into : Region → RpcRegion
region_into v = record { geoname_id = some v.geoname_id; code = some v.code; name = some v.name }

unfoldable pub city_from : RpcCity → City
city_from r = record { geoname_id = or_default 0 r.geoname_id; name = or_default [] r.name }

unfoldable pub city_into : City → RpcCity
city_into v = record { geoname_id = some v.geoname_id; name = some v.name }

unfoldable pub geoip_data_from : RpcGeoipData → GeoipData
unfolding location_from continent_from country_from region_from city_from
geoip_data_from r = record {
  location = location_from (or_default no_location r.location);
  continent = continent_from (or_default no_continent r.continent);
  country = country_from (or_default no_country r.country);
  region = region_from (or_default no_region r.region);
  city = city_from (or_default no_city r.city);
}

unfoldable pub geoip_data_into : GeoipData → RpcGeoipData
unfolding location_into continent_into country_into region_into city_into
geoip_data_into v = record {
  location = some (location_into v.location);
  continent = some (continent_into v.continent);
  country = some (country_into v.country);
  region = some (region_into v.region);
  city = some (city_into v.city);
}

pub record ConnectionInfo : Type 0 where
  pub ip : Text
  pub location : Location
  pub continent : Continent
  pub country : Country
  pub region : Region
  pub city : City

pub record RpcConnectionInfo : Type 0 where
  pub ip : Text
  pub geoip_data : Option RpcGeoipData

-- The fields of the location go through the same conversions as in `geoip_data_from`.
unfoldable pub connection_info_from : RpcConnectionInfo → ConnectionInfo
unfolding location_from continent_from country_from region_from city_from
connection_info_from info =
    let d = or_default no_geoip_data info.geoip_data in
    record {
      ip = info.ip;
      location = location_from (or_default no_location d.location);
      continent = continent_from (or_default no_continent d.continent);
      country = country_from (or_default no_country d.country);
      region = region_from (or_default no_region d.region);
      city = city_from (or_default no_city d.city);
    }

unfoldable pub connection_info_into : ConnectionInfo → RpcConnectionInfo
unfolding location_into continent_into country_into region_into city_into
connection_info_into v = record {
  ip = v.ip;
  geoip_data = some (record {
    location = some (location_into v.location);
    continent = some (continent_into v.continent);
    country = some (country_into v.country);
    region = some (region_into v.region);
    city = some (city_into v.city);
  });
}

-- A connection that is written as a message of the RPC interface is read back as it was.
pub connection_info_from-into :
    (info : ConnectionInfo) → connection_info_from (connection_info_into info) ≡ info
unfolding connection_info_from connection_info_into
connection_info_from-into info = refl
