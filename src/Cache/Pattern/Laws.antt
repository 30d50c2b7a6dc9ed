-- ===== src/Cache/Pattern/Laws.antt =====
-- The loop of `cache_delete_pattern` (src/config/cache.py) ends, and leaves no key of the pattern.
use flyrank_capstone_meterin.Prelude.{
  ℕ, zero, suc, ◌+◌, ◌≤◌, ◌<◌, String, ◌≡◌, refl, ◌∙◌, ◌⊎◌, inl, inr, Bool, true, false, none, some,
  arith, ◌==◌, ltb, ltb→lt, if◌then◌else◌, Bool-cases,
}
use flyrank_capstone_meterin.Cache.{Redis, Ticks, get_redis, find_live}
use flyrank_capstone_meterin.Cache.Laws.{IsConnected}
use flyrank_capstone_meterin.Cache.Pattern.Held.{
  is_held, is_among, held-delete_keys, find_live-delete_keys, not_held-find_live,
}
use flyrank_capstone_meterin.Cache.Pattern.{Scan, delete_keys, delete_pages, cache_delete_pattern}

-- What Redis documents of SCAN with a pattern: a call goes on from the cursor's place among the
-- slots, which are finitely many, and the whole walk passes each slot; it returns the held keys of the
-- slots between that match the pattern, and no key that does not match.
pub record IsScan (scan : Scan) (is_match : String → String → Bool) (slots : ℕ) : Type 0 where
  pub place : ℕ → ℕ
  pub slot : String → ℕ
  pub first : place 0 ≡ 0
  pub onward :
      (cursor : ℕ) (pattern : String) (r : Redis)
      → ((scan cursor pattern r).0 == 0) ≡ false
      → (place cursor < place (scan cursor pattern r).0) × (place (scan cursor pattern r).0 ≤ slots)
  pub passed :
      (cursor : ℕ) (pattern key : String) (r : Redis)
      → is_match pattern key ≡ true
      → is_held key r ≡ true
      → place cursor ≤ slot key
      → ((scan cursor pattern r).0 == 0) ≡ true ⊎ (slot key < place (scan cursor pattern r).0)
      → is_among key (scan cursor pattern r).1 ≡ true
  pub matching :
      (cursor : ℕ) (pattern key : String) (r : Redis)
      → is_among key (scan cursor pattern r).1 ≡ true
      → is_match pattern key ≡ true

module _ (scan : Scan) (is_match : String → String → Bool) (slots : ℕ)
    (scanned : IsScan scan is_match slots) (pattern : String) where
  -- The matching keys that are held lie ahead of the cursor.
  abbrev IsAhead : ℕ → Redis → Type 0
  IsAhead cursor r =
      (key : String)
      → is_match pattern key ≡ true
      → is_held key r ≡ true
      → scanned.place cursor ≤ scanned.slot key

  -- A page leaves no matching key behind the next cursor, and none at all at the end.
  page_done :
      (cursor : ℕ) (r : Redis) (key : String)
      → IsAhead cursor r
      → is_match pattern key ≡ true
      → let (next, keys) = scan cursor pattern r in
        is_held key (delete_keys keys r) ≡ true
        → ((next == 0) ≡ false) × (scanned.place next ≤ scanned.slot key)
  page_done cursor r key ahead match held =
      let gone = held-delete_keys key (scan cursor pattern r).1 r in
      let before : is_held key r ≡ true = ground arith in
      let among = scanned.passed cursor pattern key r match before (ahead key match before) in
      elim (Bool-cases ((scan cursor pattern r).0 == 0)) [
        | inl end ↦ absurd (ground (arith, among (inl end)))
        | inr more ↦
            elim (Bool-cases (ltb (scanned.slot key) (scanned.place (scan cursor pattern r).0))) [
              | inl behind ↦ absurd (ground (arith, among (inr (ltb→lt _ _ behind))))
              | inr on ↦ (more, ground arith)
            ]
      ]

  -- A page leaves the keys that do not match as they are.
  other_kept :
      (cursor : ℕ) (r : Redis) (key : String)
      → is_match pattern key ≡ false
      → is_among key (scan cursor pattern r).1 ≡ false
  other_kept cursor r key other = elim (Bool-cases (is_among key (scan cursor pattern r).1)) [
    | inl among ↦ absurd (cc (other, scanned.matching cursor pattern key r among))
    | inr absent ↦ absent
  ]

  -- What the loop leaves of a key that matches and of one that does not.
  record IsSwept (r r' : Redis) : Type 0 where
    pub gone : (key : String) → is_match pattern key ≡ true → is_held key r' ≡ false
    pub kept : (key : String) → is_match pattern key ≡ false → is_held key r' ≡ is_held key r
    pub read :
        (now : ℕ) (key : String)
        → is_match pattern key ≡ false
        → find_live now key r'.entries ≡ find_live now key r.entries

  page_kept :
      (cursor : ℕ) (r : Redis) (key : String)
      → is_match pattern key ≡ false
      → is_held key (delete_keys (scan cursor pattern r).1 r) ≡ is_held key r
  page_kept cursor r key other =
      held-delete_keys key (scan cursor pattern r).1 r ∙ rw (other_kept cursor r key other) refl

  last_page :
      (cursor : ℕ) (r : Redis)
      → IsAhead cursor r
      → ((scan cursor pattern r).0 == 0) ≡ true
      → IsSwept r (delete_keys (scan cursor pattern r).1 r)
  last_page cursor r ahead end = record {
    gone = λ key match. elim (Bool-cases (is_held key (delete_keys (scan cursor pattern r).1 r))) [
      | inl held ↦ absurd (cc (end, (page_done cursor r key ahead match held).0))
      | inr absent ↦ absent
    ];
    kept = λ key other. page_kept cursor r key other;
    read = λ now key other.
        find_live-delete_keys now key (scan cursor pattern r).1 r (other_kept cursor r key other);
  }

  later_pages :
      (cursor : ℕ) (r r' : Redis)
      → IsSwept (delete_keys (scan cursor pattern r).1 r) r'
      → IsSwept r r'
  later_pages cursor r r' swept = record {
    gone = swept.gone;
    kept = λ key other. swept.kept key other ∙ page_kept cursor r key other;
    read = λ now key other.
        swept.read now key other
        ∙ find_live-delete_keys now key (scan cursor pattern r).1 r (other_kept cursor r key other);
  }

  page_more :
      (fuel cursor : ℕ) (r : Redis)
      → ((scan cursor pattern r).0 == 0) ≡ false
      → delete_pages (suc fuel) scan pattern cursor r
        ≡ delete_pages fuel scan pattern
            (scan cursor pattern r).0
            (delete_keys (scan cursor pattern r).1 r)
  unfolding delete_pages
  page_more fuel cursor r more = rw more refl

  -- With more fuel than there are slots ahead, the loop ends.
  pages_end :
      (fuel cursor : ℕ) (r : Redis)
      → IsAhead cursor r
      → scanned.place cursor ≤ slots
      → slots < fuel + scanned.place cursor
      → (r' : Redis) × (delete_pages fuel scan pattern cursor r ≡ some r') × IsSwept r r'
  pages_end zero cursor r ahead within enough = absurd (omega arith)
  pages_end (suc fuel) cursor r ahead within enough =
      elim (Bool-cases ((scan cursor pattern r).0 == 0)) [
        | inl end ↦ (
          delete_keys (scan cursor pattern r).1 r,
          unfold delete_pages in rw end refl,
          last_page cursor r ahead end,
        )
        | inr more ↦
            let (on, still) = scanned.onward cursor pattern r more in
            let (r', run, swept) =
              pages_end fuel (scan cursor pattern r).0 (delete_keys (scan cursor pattern r).1 r)
                (λ key match held. (page_done cursor r key ahead match held).1) still
                (omega arith) in
            (r', page_more fuel cursor r more ∙ run, later_pages cursor r r' swept)
      ]

  connected_pages :
      (fuel : ℕ) (t : Ticks) (r : Redis)
      → IsConnected r
      → cache_delete_pattern fuel scan t pattern r ≡ delete_pages fuel scan pattern 0 r
  unfolding cache_delete_pattern get_redis
  connected_pages fuel t r c = ground arith

  -- Where SCAN walks over a number of slots as Redis documents it, and Redis is connected, fuel for
  -- one page more than there are slots ends the loop of `cache_delete_pattern`, and then exactly the
  -- keys that match the pattern are gone: of these none is held or read any more, and each other key
  -- is held, and is read at any time, as before.
  pub pattern_swept :
      (t : Ticks) (r : Redis)
      → IsConnected r
      → (r' : Redis) × (cache_delete_pattern (suc slots) scan t pattern r ≡ some r')
        × ((key : String)
            → is_held key r' ≡ (if is_match pattern key then false else is_held key r))
        × ((now : ℕ) (key : String)
            → find_live now key r'.entries
              ≡ (if is_match pattern key then none else find_live now key r.entries))
  pattern_swept t r c =
      let (r', run, swept) =
        pages_end (suc slots) 0 r (λ key match held. rw scanned.first (omega arith))
          (rw scanned.first (omega arith)) (rw scanned.first (omega arith)) in
      (
        r',
        connected_pages (suc slots) t r c ∙ run,
        λ key. elim (Bool-cases (is_match pattern key)) [
          | inl match ↦ rw match (swept.gone key match)
          | inr other ↦ rw other (swept.kept key other)
        ],
        λ now key. elim (Bool-cases (is_match pattern key)) [
          | inl match ↦ rw match (
              not_held-find_live now key r'.entries
                (let gone = swept.gone key match in ground arith))
          | inr other ↦ rw other (swept.read now key other)
        ],
      )
