-- ===== src/DatabaseConfig.antt =====
-- libTupl/src/tupl/DatabaseConfig.hpp: the options of a database and their setters, which return the
-- object for the next call.
pub mod Chains
use tupl_native.Common.{ℕ, ◌*◌}

pub record DatabaseConfig : Type 0 where
  pub page_size : ℕ
  pub min_cached_bytes : ℕ
  pub max_cached_bytes : ℕ

-- `DatabaseConfig()`
unfoldable pub default_config : DatabaseConfig
default_config = record {
  page_size = 4096;
  min_cached_bytes = 1 * 1024 * 1024;
  max_cached_bytes = 16 * 1024 * 1024;
}

-- `minCacheSize`
unfoldable pub set_min_cache_size : (min_bytes : ℕ) → DatabaseConfig → DatabaseConfig
set_min_cache_size min_bytes c = record c { min_cached_bytes = min_bytes }

-- `maxCacheSize`
unfoldable pub set_max_cache_size : (max_bytes : ℕ) → DatabaseConfig → DatabaseConfig
set_max_cache_size max_bytes c = record c { max_cached_bytes = max_bytes }

-- `pageSize`
unfoldable pub set_page_size : (size : ℕ) → DatabaseConfig → DatabaseConfig
set_page_size size c = record c { page_size = size }
