-- ===== src/Access/RateLimit.antt =====
-- common/guards/rate-limit.guard.ts. The map of hits is an association list; the key that the guard
-- builds of the class, the handler and the address is the key of the request. Times are milliseconds.
pub mod Window
use vellora_backend.Prelude.{
  ℕ, suc, ◌+◌, ◌≤◌, ◌<◌, min, ◌≡◌, refl, Bool, true, false, not, ◌&&◌, ◌||◌, Option, none, some,
  String, List, [], ◌∷◌, str_eq, str_eq_iff, if◌then◌else◌, length, leb, ltb, arith, Bool-cases,
  Option-cases, inl, inr, ◌⊎◌, sym, ◌∙◌, All, is_some,
}
use vellora_backend.Nest.{Result, ok, err, too_many_requests}

pub record RateLimitOptions : Type 0 where
  pub limit : ℕ
  pub window_ms : ℕ

pub record Entry : Type 0 where
  pub count : ℕ
  pub reset_at : ℕ

abbrev pub Hits : Type 0
Hits = List (String × Entry)

-- A request to a limited route.
pub record Hit : Type 0 where
  pub key : String
  pub options : RateLimitOptions
  pub now : ℕ

abbrev pub get : String → Hits → Option Entry
get key [] = none
get key ((k, e) ∷ hits) = let rest = get key hits in if str_eq k key then some e else rest

abbrev pub put : String → Entry → Hits → Hits
put key entry [] = (key, entry) ∷ []
put key entry ((k, e) ∷ hits) =
    let rest = put key entry hits in if str_eq k key then (k, entry) ∷ hits else (k, e) ∷ rest

abbrev pub drop_expired : ℕ → Hits → Hits
drop_expired now [] = []
drop_expired now ((k, e) ∷ hits) =
    let rest = drop_expired now hits in if leb e.reset_at now then rest else (k, e) ∷ rest

abbrev pub sweep : ℕ → Hits → Hits
sweep now hits = if ltb (length hits) 5000 then hits else drop_expired now hits

-- `!entry || entry.resetAt <= now`
abbrev pub is_fresh : ℕ → Option Entry → Bool
is_fresh now none = true
is_fresh now (some e) = leb e.reset_at now

-- `canActivate`
unfoldable pub can_activate : Hit → Hits → Result Bool × Hits
can_activate h hits = elim (get h.key hits) [
  | none ↦ (
    ok true,
    sweep h.now (put h.key (record { count = 1; reset_at = h.now + h.options.window_ms }) hits),
  )
  | some e ↦
      if leb e.reset_at h.now
      then (
        ok true,
        sweep h.now (put h.key (record { count = 1; reset_at = h.now + h.options.window_ms }) hits),
      )
      else if leb h.options.limit e.count
      then (err (too_many_requests "Too many requests. Please try again later."), hits)
      else (ok true, put h.key (record e { count = e.count + 1 }) hits)
]

abbrev pub is_ok : Result Bool → Bool
is_ok (ok b) = true
is_ok (err e) = false

-- How many of the requests in order the guard lets through under a key, and how many it sees.
unfoldable pub passed : String → List Hit → Hits → ℕ
unfolding can_activate
passed key [] hits = 0
passed key (h ∷ hs) hits =
    let (r, hits') = can_activate h hits in
    (if str_eq h.key key && is_ok r then 1 else 0) + passed key hs hits'

unfoldable pub seen : String → List Hit → ℕ
seen key [] = 0
seen key (h ∷ hs) = (if str_eq h.key key then 1 else 0) + seen key hs

pub get-put :
    (k key : String) (e : Entry) (hits : Hits)
    → get k (put key e hits) ≡ (if str_eq key k then some e else get k hits)
get-put k key e [] = refl
get-put k key e ((j, f) ∷ hits) =
    ground (arith, str_eq_iff key k, str_eq_iff j k, str_eq_iff j key, get-put k key e hits)
