-- ===== src/Examples/Configs.antt =====
-- A page size that is set twice, and a minimal cache size.
use tupl_native.Common.{◌≡◌, List, [], ◌∷◌}
use tupl_native.DatabaseConfig.{default_config}
use tupl_native.DatabaseConfig.Chains.{
  Setting, min_cache_size, page_size_of, set_each, set_each-default_config,
}

abbrev three_settings : List Setting
three_settings = page_size_of 512 ∷ min_cache_size 100 ∷ page_size_of 8192 ∷ []

set_each-default_config_example :
    set_each three_settings default_config
    ≡ record { page_size = 8192; min_cached_bytes = 100; max_cached_bytes = 16777216 }
set_each-default_config_example = set_each-default_config three_settings
