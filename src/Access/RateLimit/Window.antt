-- ===== src/Access/RateLimit/Window.antt =====
-- What the rate limiter of common/guards/rate-limit.guard.ts lets through in one window.
use vellora_backend.Prelude.{
  ℕ, ◌+◌, ◌-◌, ◌≤◌, ◌<◌, min, ◌≡◌, refl, true, false, some, String, List, [], ◌∷◌, str_eq,
  str_eq_iff, length, leb, arith, Bool-cases, Option-cases, inl, inr, ◌∙◌, All,
}
use vellora_backend.Access.RateLimit.{
  Entry, Hits, Hit, get, put, drop_expired, sweep, is_fresh, can_activate, passed, seen, get-put,
  is_ok,
}

get-drop_expired :
    (k : String) (now : ℕ) (e : Entry) (hits : Hits)
    → get k hits ≡ some e
    → now < e.reset_at
    → get k (drop_expired now hits) ≡ some e
get-drop_expired k now e [] found live = cc
get-drop_expired k now e ((j, f) ∷ hits) found live = elim (Bool-cases (str_eq j k)) [
  | inl hit ↦ let same : f ≡ e = ground (arith, hit) in ground (arith, hit, same)
  | inr miss ↦ ground (arith, miss, get-drop_expired k now e hits (ground (arith, miss)) live)
]

get-sweep :
    (k : String) (now : ℕ) (e : Entry) (hits : Hits)
    → get k hits ≡ some e
    → now < e.reset_at
    → get k (sweep now hits) ≡ some e
get-sweep k now e hits found live = ground (arith, get-drop_expired k now e hits found live)

-- The requests fall before the end of the window, and those under the key have its limit.
abbrev pub IsWithin : String → ℕ → ℕ → Hit → Type 0
IsWithin key limit until h = (h.now < until) × (str_eq h.key key ≡ true → h.options.limit ≡ limit)

module _ (key : String) (limit until : ℕ) where
  -- A request under another key leaves the entry as it is.
  other :
      (h : Hit) (hits : Hits) (e : Entry)
      → get key hits ≡ some e
      → h.now < e.reset_at
      → str_eq h.key key ≡ false
      → get key (can_activate h hits).1 ≡ some e
  unfolding can_activate
  other h hits e found live apart =
      let kept = λ (n : Entry). get-put key h.key n hits in
      let put_kept : (n : Entry) → get key (put h.key n hits) ≡ some e =
        λ n. ground (arith, kept n, apart, found) in
      let fresh : Entry = record { count = 1; reset_at = h.now + h.options.window_ms } in
      let swept = get-sweep key h.now e (put h.key fresh hits) (put_kept fresh) live in
      elim (Option-cases (get h.key hits)) [
        | inl new ↦ ground (arith, new, swept)
        | inr (f, old) ↦ elim (Bool-cases (leb f.reset_at h.now)) [
          | inl expired ↦ ground (arith, old, expired, swept)
          | inr running ↦ elim (Bool-cases (leb h.options.limit f.count)) [
            | inl full ↦ ground (arith, old, running, full, found)
            | inr free ↦
                ground (arith, old, running, free, put_kept (record f { count = f.count + 1 }))
          ]
        ]
      ]

  -- A request under the key, while its window runs.
  refused :
      (h : Hit) (hits : Hits) (e : Entry)
      → get h.key hits ≡ some e
      → h.now < e.reset_at
      → h.options.limit ≤ e.count
      → (is_ok (can_activate h hits).0 ≡ false) × ((can_activate h hits).1 ≡ hits)
  unfolding can_activate
  refused h hits e found live full = (ground (arith, found), ground (arith, found))

  admitted :
      (h : Hit) (hits : Hits) (e : Entry)
      → get h.key hits ≡ some e
      → h.now < e.reset_at
      → e.count < h.options.limit
      → (is_ok (can_activate h hits).0 ≡ true)
        × (get h.key (can_activate h hits).1 ≡ some (record e { count = e.count + 1 }))
  unfolding can_activate
  admitted h hits e found live free =
      let kept = get-put h.key h.key (record e { count = e.count + 1 }) hits in
      let own : str_eq h.key h.key ≡ true = (str_eq_iff h.key h.key).1 refl in
      (ground (arith, found), ground (arith, found, kept, own))

  rest_of :
      (hs : List Hit) (hits : Hits) (e : Entry)
      → get key hits ≡ some e
      → e.reset_at ≡ until
      → All (IsWithin key limit until) hs
      → passed key hs hits ≡ min (seen key hs) (limit - e.count)
  unfolding passed seen
  rest_of [] hits e found ends within = ground arith
  rest_of (h ∷ hs) hits e found ends within =
      let (soon, options) = within.0 in
      let live : h.now < e.reset_at = rw ends soon in
      elim (Bool-cases (str_eq h.key key)) [
        | inr apart ↦
            let ih =
              rest_of hs (can_activate h hits).1 e (other h hits e found live apart) ends
                within.1 in
            rw (apart, ih) (ground arith)
        | inl own ↦
            let key_eq : h.key ≡ key = (str_eq_iff h.key key).0 own in
            let found' : get h.key hits ≡ some e = rw key_eq found in
            elim (Bool-cases (leb limit e.count)) [
              | inl full ↦
                  let (no_pass, same) =
                    refused h hits e found' live (ground (arith, options own, full)) in
                  let ih = rest_of hs hits e found ends within.1 in
                  rw (own, no_pass, same, ih) (ground (arith, full))
              | inr free ↦
                  let (pass, counted) =
                    admitted h hits e found' live (ground (arith, options own, free)) in
                  let ih =
                    rest_of hs (can_activate h hits).1 (record e { count = e.count + 1 })
                      (rw (← key_eq) counted) ends within.1 in
                  rw (own, pass, ih) (ground (arith, free))
            ]
      ]

-- When the key of a request has no entry, or one whose window is over, the request opens a window. Of
-- it and the requests before the window's end, in whatever order with requests under other keys, the
-- guard lets through as many under the key as there are, up to the limit, and at least the first.
pub passed-window :
    (first : Hit) (hs : List Hit) (hits : Hits)
    → is_fresh first.now (get first.key hits) ≡ true
    → 0 < first.options.window_ms
    → All (IsWithin first.key first.options.limit (first.now + first.options.window_ms)) hs
    → passed first.key (first ∷ hs) hits ≡ 1 + min (seen first.key hs) (first.options.limit - 1)
unfolding passed can_activate
passed-window first hs hits fresh length within =
    let key = first.key in
    let until = first.now + first.options.window_ms in
    let e : Entry = record { count = 1; reset_at = until } in
    let own : str_eq key key ≡ true = (str_eq_iff key key).1 refl in
    let kept : get key (put key e hits) ≡ some e = get-put key key e hits ∙ rw own refl in
    let swept : get key (sweep first.now (put key e hits)) ≡ some e =
      get-sweep key first.now e (put key e hits) kept (omega arith) in
    let (opened, entered) = opens in
    let ih =
      rest_of key first.options.limit until hs (can_activate first hits).1 e (rw entered swept) refl
        within in
    rw (own, opened, ih) refl
  where
    opens :
        (is_ok (can_activate first hits).0 ≡ true)
        × ((can_activate first hits).1
            ≡ sweep first.now (
                put first.key
                  (record { count = 1; reset_at = first.now + first.options.window_ms })
                  hits))
    opens = elim (Option-cases (get first.key hits)) [
      | inl new ↦ (ground (arith, new), ground (arith, new))
      | inr (f, old) ↦
          let expired : leb f.reset_at first.now ≡ true = ground (arith, old, fresh) in
          (ground (arith, old, expired), ground (arith, old, expired))
    ]
