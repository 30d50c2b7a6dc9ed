-- ===== src/Cache/Pattern/Held.antt =====
-- Which keys Redis holds after a DEL (src/config/cache.py).
use flyrank_capstone_meterin.Prelude.{
  ℕ, String, ◌≡◌, refl, ◌∙◌, Bool, false, ◌||◌, none, List, [], ◌∷◌, arith, str_eq, eq_iff,
  if◌then◌else◌, exists,
}
use flyrank_capstone_meterin.Cache.{Entry, Zset, Redis, find_live, drop_key}
use flyrank_capstone_meterin.Cache.Laws.{find_live-drop_key}
use flyrank_capstone_meterin.Cache.Pattern.{drop_zset, delete_keys}

-- Redis holds the key.
abbrev pub is_held : String → Redis → Bool
is_held key r =
    exists (λ (e : Entry). str_eq e.key key) r.entries
    || exists (λ (z : Zset). str_eq z.key key) r.zsets

abbrev pub is_among : String → List String → Bool
is_among key keys = exists (λ k. str_eq k key) keys

held-drop_key :
    (key k : String) (es : List Entry)
    → exists (λ (e : Entry). str_eq e.key key) (drop_key k es)
      ≡ (if str_eq k key then false else exists (λ (e : Entry). str_eq e.key key) es)
unfolding exists drop_key
held-drop_key key k [] = ground arith
held-drop_key key k (e ∷ es) =
    ground (arith, held-drop_key key k es, eq_iff e.key key, eq_iff e.key k, eq_iff k key)

held-drop_zset :
    (key k : String) (zs : List Zset)
    → exists (λ (z : Zset). str_eq z.key key) (drop_zset k zs)
      ≡ (if str_eq k key then false else exists (λ (z : Zset). str_eq z.key key) zs)
unfolding exists drop_zset
held-drop_zset key k [] = ground arith
held-drop_zset key k (z ∷ zs) =
    ground (arith, held-drop_zset key k zs, eq_iff z.key key, eq_iff z.key k, eq_iff k key)

-- After a DEL a key is held if it was, and is not among the keys.
pub held-delete_keys :
    (key : String) (keys : List String) (r : Redis)
    → is_held key (delete_keys keys r) ≡ (if is_among key keys then false else is_held key r)
unfolding delete_keys exists
held-delete_keys key [] r = refl
held-delete_keys key (k ∷ keys) r =
    let r' = record r { entries = drop_key k r.entries; zsets = drop_zset k r.zsets } in
    held-delete_keys key keys r'
    ∙ rw (held-drop_key key k r.entries, held-drop_zset key k r.zsets) (ground arith)

-- A key that is not among those of a DEL is read as before.
pub find_live-delete_keys :
    (now : ℕ) (key : String) (keys : List String) (r : Redis)
    → is_among key keys ≡ false
    → find_live now key (delete_keys keys r).entries ≡ find_live now key r.entries
unfolding delete_keys exists
find_live-delete_keys now key [] r h = refl
find_live-delete_keys now key (k ∷ keys) r h =
    let r' = record r { entries = drop_key k r.entries; zsets = drop_zset k r.zsets } in
    ground (arith, find_live-delete_keys now key keys r', find_live-drop_key now key k r.entries)

pub not_held-find_live :
    (now : ℕ) (key : String) (es : List Entry)
    → exists (λ (e : Entry). str_eq e.key key) es ≡ false
    → find_live now key es ≡ none
unfolding exists find_live
not_held-find_live now key [] h = refl
not_held-find_live now key (e ∷ es) h = ground (arith, not_held-find_live now key es)
