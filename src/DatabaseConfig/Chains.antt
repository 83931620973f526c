-- ===== src/DatabaseConfig/Chains.antt =====
-- Chains of calls of the setters of libTupl/src/tupl/DatabaseConfig.hpp.
use tupl_native.Common.{ℕ, ◌≡◌, refl, Option, none, some, List, [], ◌∷◌}
use tupl_native.DatabaseConfig.{
  DatabaseConfig, default_config, set_min_cache_size, set_max_cache_size, set_page_size,
}

pub data Setting : Type 0 where
  min_cache_size max_cache_size page_size_of : ℕ → Setting

unfoldable pub set : Setting → DatabaseConfig → DatabaseConfig
unfolding set_min_cache_size set_max_cache_size set_page_size
set (min_cache_size n) c = set_min_cache_size n c
set (max_cache_size n) c = set_max_cache_size n c
set (page_size_of n) c = set_page_size n c

unfoldable pub set_each : List Setting → DatabaseConfig → DatabaseConfig
unfolding set
set_each [] c = c
set_each (s ∷ ss) c = set_each ss (set s c)

abbrev pub min_of : Setting → Option ℕ
min_of (min_cache_size n) = some n
min_of (max_cache_size n) = none
min_of (page_size_of n) = none

abbrev pub max_of : Setting → Option ℕ
max_of (min_cache_size n) = none
max_of (max_cache_size n) = some n
max_of (page_size_of n) = none

abbrev pub page_of : Setting → Option ℕ
page_of (min_cache_size n) = none
page_of (max_cache_size n) = none
page_of (page_size_of n) = some n

-- The last value that a list gives for an option, or the one that it has.
abbrev pub last_value : (Setting → Option ℕ) → List Setting → ℕ → ℕ
last_value f [] n = n
last_value f (s ∷ ss) n = last_value f ss (elim (f s) [ none ↦ n | some m ↦ m ])

set_each_lem :
    (ss : List Setting) (c : DatabaseConfig)
    → set_each ss c ≡ record {
      page_size = last_value page_of ss c.page_size;
      min_cached_bytes = last_value min_of ss c.min_cached_bytes;
      max_cached_bytes = last_value max_of ss c.max_cached_bytes;
    }
unfolding set_each
set_each_lem [] c = refl
set_each_lem (min_cache_size n ∷ ss) c = set_each_lem ss (record c { min_cached_bytes = n })
set_each_lem (max_cache_size n ∷ ss) c = set_each_lem ss (record c { max_cached_bytes = n })
set_each_lem (page_size_of n ∷ ss) c = set_each_lem ss (record c { page_size = n })

-- After any chain of calls of the setters on a new configuration, in any order, each option is what
-- its own last setter has given, whatever the other options are, and otherwise the default: pages
-- of 4096 bytes, and from 1 to 16 MiB of cache.
pub set_each-default_config :
    (ss : List Setting)
    → set_each ss default_config ≡ record {
      page_size = last_value page_of ss 4096;
      min_cached_bytes = last_value min_of ss 1048576;
      max_cached_bytes = last_value max_of ss 16777216;
    }
unfolding default_config
set_each-default_config ss = set_each_lem ss default_config
