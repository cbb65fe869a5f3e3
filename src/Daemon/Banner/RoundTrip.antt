-- ===== src/Daemon/Banner/RoundTrip.antt =====
-- adb/adb.cpp: parse_banner reads from a device's banner the qualifiers that the device has put into it.
use adb_wide.Base.{ℕ, ◌<◌, ◌≡◌, false, List, ◌∷◌, ◌++◌, length, contains}
use adb_wide.Daemon.Banner.{product_name, product_model, product_device, prop_text}

-- A value of a property that the banner can carry: property_get gives less than PROPERTY_VALUE_MAX
-- bytes before the null.
abbrev pub IsValue : List ℕ → Type 0
IsValue value = (length value < 92) × (contains 0 value ≡ false) × (contains b';' value ≡ false)

abbrev props_text : (List ℕ → List ℕ) → List ℕ
props_text get =
    prop_text product_name (get product_name)
    ++ (prop_text product_model (get product_model)
        ++ prop_text product_device (get product_device))

abbrev token : List ℕ → (List ℕ → List ℕ) → List ℕ
token key get = key ++ (b'=' ∷ get key)
