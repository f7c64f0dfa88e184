-- ===== src/ConnectionManager/Events/Awaited.antt =====
-- Every walk of ui/web/js/railviz/connectionmgr.js that has neither a polyline nor an error is waited
-- for: a call for it is under way.
pub mod Asking
pub mod Ending
pub mod Run
use motis.Prelude.{
  ◌<◌, ℕ, zero, suc, ◌+◌, ◌≡◌, refl, ap, sym, ◌∙◌, ◌≢◌, Bool, true, false, ◌&&◌, ◌||◌, List, [],
  ◌∷◌, ◌++◌, Option, none, some, if◌then◌else◌, any, All, arith, Bool-cases, inl, inr, ◌==◌,
}
use motis.ConnectionManager.Walks.{WalkEntry}
use motis.ConnectionManager.Walks.Grouping.{IsNumbered}
use motis.ConnectionManager.State.{Call, Purpose, for_trips, for_walk, find_call, remove_call}
use motis.ConnectionManager.Requests.{is_open}
use motis.ConnectionManager.Trips.{update_at}

-- The call is for entry `id` of the walks of this generation.
abbrev pub is_for : ℕ → ℕ → Purpose → Bool
is_for generation id for_trips = false
is_for generation id (for_walk g i walk router) = g == generation && i == id

abbrev pub has_call : ℕ → ℕ → List Call → Bool
has_call generation id calls = any (λ c. is_for generation id c.purpose) calls

abbrev pub IsAwaited : ℕ → List Call → WalkEntry → Type 0
IsAwaited generation pending w = is_open w ≡ true → has_call generation w.id pending ≡ true

abbrev pub AreAwaited : ℕ → List Call → List WalkEntry → Type 0
AreAwaited generation pending ws = All (IsAwaited generation pending) ws

pub has_call-append :
    (generation id : ℕ) (cs ds : List Call)
    → has_call generation id cs ≡ true
    → has_call generation id (cs ++ ds) ≡ true
has_call-append generation id [] ds h = cc
has_call-append generation id (c ∷ cs) ds h = ground (arith, has_call-append generation id cs ds)

pub AreAwaited-append :
    (generation : ℕ) (cs ds : List Call) (ws : List WalkEntry)
    → AreAwaited generation cs ws
    → AreAwaited generation (cs ++ ds) ws
AreAwaited-append generation cs ds [] a = tt
AreAwaited-append generation cs ds (w ∷ ws) a =
    (λ o. has_call-append generation w.id cs ds (a.0 o), AreAwaited-append generation cs ds ws a.1)

-- The call that ends was for another walk.
pub has_call-remove_call :
    (generation id k : ℕ) (cs : List Call) {c : Call}
    → find_call k cs ≡ some c
    → is_for generation id c.purpose ≡ false
    → has_call generation id (remove_call k cs) ≡ has_call generation id cs
has_call-remove_call generation id k [] e f = refl
has_call-remove_call generation id k (x ∷ cs) {c} e f = elim (Bool-cases (x.call_id == k)) [
  | inl same ↦
      let e' : x ≡ c = some-head x (rw same at e) in
      let f' : is_for generation id x.purpose ≡ false = rw e' f in rw (same, f') refl
  | inr other ↦ rw other (
      ap (λ b. is_for generation id x.purpose || b)
        (has_call-remove_call generation id k cs {c = c} (rw other at e) f))
]
  where
    some-head : (x : Call) {a : Call} → some x ≡ some a → x ≡ a
    some-head x h = cc

-- What stays waited for when the call for entry `i` ends and the entry is settled.
pub AreAwaited-update_at :
    (generation k i : ℕ) (cs ds : List Call) (f : WalkEntry → WalkEntry) (ws : List WalkEntry)
    → IsNumbered k ws
    → ((w : WalkEntry) → is_open (f w) ≡ false)
    → ((id : ℕ) → id ≢ k + i → has_call generation id cs ≡ true → has_call generation id ds ≡ true)
    → AreAwaited generation cs ws
    → AreAwaited generation ds (update_at i f ws)
AreAwaited-update_at generation k i cs ds f [] n settled keeps a = tt
AreAwaited-update_at generation k zero cs ds f (w ∷ ws) n settled keeps a =
    (λ o. cc (o, settled w), rest (k + 1) ws n.1 (omega arith) a.1)
  where
    rest :
        (j : ℕ) (vs : List WalkEntry)
        → IsNumbered j vs
        → k < j
        → AreAwaited generation cs vs
        → AreAwaited generation ds vs
    rest j [] m lt b = tt
    rest j (v ∷ vs) m lt b = (
      λ o. keeps v.id (λ e. absurd (omega (arith, e, m.0, lt))) (b.0 o),
      rest (j + 1) vs m.1 (omega arith) b.1,
    )
AreAwaited-update_at generation k (suc i) cs ds f (w ∷ ws) n settled keeps a = (
  λ o. keeps w.id (λ e. absurd (omega (arith, e, n.0))) (a.0 o),
  AreAwaited-update_at generation (k + 1) i cs ds f ws n.1 settled
      (λ id ne. keeps id (λ e. ne (omega (arith, e)))) a.1,
)

-- What stays waited for when a call for none of the walks ends.
pub AreAwaited-keeps :
    (generation : ℕ) (cs ds : List Call) (ws : List WalkEntry)
    → ((id : ℕ) → has_call generation id cs ≡ true → has_call generation id ds ≡ true)
    → AreAwaited generation cs ws
    → AreAwaited generation ds ws
AreAwaited-keeps generation cs ds [] keeps a = tt
AreAwaited-keeps generation cs ds (w ∷ ws) keeps a =
    (λ o. keeps w.id (a.0 o), AreAwaited-keeps generation cs ds ws keeps a.1)
