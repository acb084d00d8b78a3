-- ===== src/Config/Tests.antt =====
-- Examples for the configuration file: the two lines `a = xy` and `b =`.
use myqq.Base.{◌≡◌, List, [], ◌∷◌, arith}
use myqq.Config.{Config, opened, config_open, config_readstr}
use myqq.Config.Words.{Pair, ArePlain, HasNoEquals, text_of}
use myqq.Config.Read.{ArePairs, lookup, config_open-lookup}

abbrev pairs : List Pair
pairs = (97 ∷ [], 120 ∷ 121 ∷ []) ∷ (98 ∷ [], []) ∷ []

pairs-ArePairs : ArePairs pairs
unfolding ArePairs ArePlain HasNoEquals
pairs-ArePairs = (
  record {
    named = omega arith;
    is_name = record {
      plain = omega arith;
      fits = omega arith;
      first = omega arith;
      last = omega arith;
    };
    is_value = record {
      plain = omega arith;
      fits = omega arith;
      first = omega arith;
      last = omega arith;
    };
    no_equals = omega arith;
    no_comment = omega arith;
  },
  (
    record {
      named = omega arith;
      is_name = record {
        plain = omega arith;
        fits = omega arith;
        first = omega arith;
        last = omega arith;
      };
      is_value = record {
        plain = omega arith;
        fits = omega arith;
        first = omega arith;
        last = omega arith;
      };
      no_equals = omega arith;
      no_comment = omega arith;
    },
    omega arith,
  ),
)

config_open-lookup_example :
    (c : Config) × (config_open (text_of pairs) ≡ opened c)
    × (config_readstr c (97 ∷ []) ≡ lookup (97 ∷ []) pairs)
unfolding text_of
config_open-lookup_example =
    config_open-lookup pairs (97 ∷ []) pairs-ArePairs (omega arith) (omega arith) (omega arith)
