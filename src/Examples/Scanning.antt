-- ===== src/Examples/Scanning.antt =====
-- A SCAN over two slots, the second of which is that of the key "b" alone.
use flyrank_capstone_meterin.Prelude.{
  ℕ, String, ◌≡◌, refl, Bool, false, not, ◌&&◌, ◌||◌, none, some, List, [], ◌∷◌, arith, ◌==◌,
  str_eq, eq_iff, if◌then◌else◌, select, exists,
}
use flyrank_capstone_meterin.Payloads.{tenant}
use flyrank_capstone_meterin.Cache.{Entry, Zset, Redis, find_live}
use flyrank_capstone_meterin.Cache.Pattern.{Scan, cache_delete_pattern}
use flyrank_capstone_meterin.Cache.Pattern.Held.{is_held, is_among}
use flyrank_capstone_meterin.Cache.Pattern.Laws.{IsScan, pattern_swept}
use flyrank_capstone_meterin.Examples.{connected, noon}

abbrev is_glob : String → String → Bool
is_glob pattern key = str_eq pattern "*" || str_eq pattern key

abbrev entry_keys : List Entry → List String
entry_keys [] = []
entry_keys (e ∷ es) = e.key ∷ entry_keys es

abbrev all_keys : List Entry → List Zset → List String
all_keys es [] = entry_keys es
all_keys es (z ∷ zs) = z.key ∷ all_keys es zs

abbrev two_pages : Scan
two_pages cursor pattern r =
    let keys = all_keys r.entries r.zsets in
    if cursor == 0
    then (1, select (λ k. is_glob pattern k && not (str_eq k "b")) keys)
    else (0, select (λ k. is_glob pattern k && str_eq k "b") keys)

among-select :
    (p : String → Bool) (key : String) (keys : List String)
    → is_among key (select p keys) ≡ (is_among key keys && p key)
unfolding select exists
among-select p key [] = refl
among-select p key (k ∷ keys) = ground (arith, among-select p key keys, eq_iff k key)

among_entries :
    (key : String) (es : List Entry)
    → is_among key (entry_keys es) ≡ exists (λ (e : Entry). str_eq e.key key) es
unfolding exists
among_entries key [] = refl
among_entries key (e ∷ es) = ground (arith, among_entries key es)

among_all :
    (key : String) (es : List Entry) (zs : List Zset)
    → is_among key (all_keys es zs)
      ≡ (exists (λ (e : Entry). str_eq e.key key) es || exists (λ (z : Zset). str_eq z.key key) zs)
unfolding exists
among_all key es [] = ground (arith, among_entries key es)
among_all key es (z ∷ zs) = ground (arith, among_all key es zs)

two_pages-IsScan : IsScan two_pages is_glob 1
two_pages-IsScan = record {
  place = λ cursor. if cursor == 0 then 0 else 1;
  slot = λ key. if str_eq key "b" then 1 else 0;
  first = refl;
  onward = λ cursor pattern r more. ground arith;
  passed = λ cursor pattern key r match held ahead behind.
      let keys = all_keys r.entries r.zsets in
      ground (
        arith,
        among_all key r.entries r.zsets,
        among-select (λ k. is_glob pattern k && not (str_eq k "b")) key keys,
        among-select (λ k. is_glob pattern k && str_eq k "b") key keys,
      );
  matching = λ cursor pattern key r among.
      let keys = all_keys r.entries r.zsets in
      ground (
        arith,
        among-select (λ k. is_glob pattern k && not (str_eq k "b")) key keys,
        among-select (λ k. is_glob pattern k && str_eq k "b") key keys,
      );
}

abbrev cached_at : String → Entry
cached_at key = record {
  key = key;
  value = tenant (record {
    id = 1;
    name = "acme";
    email = "a@acme.test";
    api_key_hash = none;
    stripe_customer_id = none;
  });
  expires_at = 2000;
}

abbrev two_keys : Redis
two_keys = record connected {
  entries = cached_at "a" ∷ cached_at "b" ∷ [];
  zsets = record { key = "rate"; scores = 5 ∷ []; expires_at = 60 } ∷ [];
}

pattern_swept_example :
    (r' : Redis) × (cache_delete_pattern 2 two_pages noon.ticks "b" two_keys ≡ some r')
    × ((key : String) → is_held key r' ≡ (if is_glob "b" key then false else is_held key two_keys))
    × ((now : ℕ) (key : String)
        → find_live now key r'.entries
          ≡ (if is_glob "b" key then none else find_live now key two_keys.entries))
pattern_swept_example =
    pattern_swept two_pages is_glob 1 two_pages-IsScan "b" noon.ticks two_keys (refl, refl)
