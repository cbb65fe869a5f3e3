-- ===== src/Transport/Choice/Only.antt =====
-- adb/transport.cpp: acquire_one_transport takes the only transport that fits.
use adb_wide.Base.{
  ◌≤◌, ◌≡◌, ◌≢◌, refl, Bool, true, false, not, ◌&&◌, Option, none, some, List, [], ◌∷◌, ◌==◌, ap,
  arith, ◌↔◌, ◌⊎◌, inl, inr, length, if◌then◌else◌, Bool-cases, Option-cases,
}
use adb_wide.Transport.Choice.{
  cs_offline, cs_noperm, cs_unauthorized, Choosable, Query, fits_query, more_than_one, Found, go_on,
  stop, look_at, look, not_found, insufficient_permissions, Choice, chosen, refused, check_state,
  taken, waits, acquire_one_transport,
}

-- The transports on the list that the client has the permission for and that fit what it asks for.
abbrev pub candidates : Query → List Choosable → List Choosable
candidates q [] = []
candidates q (t ∷ ts) =
    let rest = candidates q ts in
    if not (t.connection_state == cs_noperm) && fits_query q t then t ∷ rest else rest

-- The state that the client asks for, and neither offline nor unauthorized.
abbrev pub IsUsable : Query → Choosable → Type 0
IsUsable q t =
    (t.connection_state ≢ cs_unauthorized)
    × (t.connection_state ≢ cs_offline)
    × ((q.state ≡ none) ⊎ (q.state ≡ some t.connection_state))

abbrev pub Only : Query → List Choosable → Choosable → Type 0
Only q ts t = (candidates q ts ≡ t ∷ []) × IsUsable q t

-- The client waits: it asks for a state, and it names the transport or not more than one fits.
abbrev pub IsPatient : Query → List Choosable → Type 0
IsPatient q ts = (q.state ≢ none) × ((q.wanted_serial ≢ none) ⊎ (length (candidates q ts) ≤ 1))

-- The transport is the only one that fits, and usable, the first time that one is, and the client has
-- waited each time before.
unfoldable pub FirstOnly : Query → List (List Choosable) → Choosable → Type 0
FirstOnly q [] t = ⊥
FirstOnly q (ts ∷ later) t =
    Only q ts t ⊎ (((u : Choosable) → ¬ Only q ts u) × (IsPatient q ts × FirstOnly q later t))

abbrev sole : List Choosable → Option Choosable
sole [] = none
sole (t ∷ []) = some t
sole (t ∷ u ∷ ts) = none

abbrev several : List Choosable → Bool
several [] = false
several (t ∷ []) = false
several (t ∷ u ∷ ts) = true

abbrev with_first : Option Choosable → List Choosable → List Choosable
with_first none ts = ts
with_first (some t) ts = t ∷ ts

look_on :
    (q : Query) (t : Choosable) (ts : List Choosable) (r r' : Found)
    → look_at q t r ≡ go_on r'
    → look q (t ∷ ts) r ≡ look q ts r'
unfolding look
look_on q t ts r r' h = rw (look, h) refl

look_no_more :
    (q : Query) (t : Choosable) (ts : List Choosable) (r r' : Found)
    → look_at q t r ≡ stop r'
    → look q (t ∷ ts) r ≡ r'
unfolding look
look_no_more q t ts r r' h = rw (look, h) refl

look-sole :
    (q : Query) (ts : List Choosable) (r : Found)
    → r.ambiguous ≡ false
    → ((look q ts r).result ≡ sole (with_first r.result (candidates q ts)))
      × ((look q ts r).ambiguous ≡ several (with_first r.result (candidates q ts)))
unfolding look look_at
look-sole q [] r h = elim (Option-cases r.result) [
  | inl e ↦ rw e (refl, h)
  | inr (t, e) ↦ rw e (refl, h)
]
look-sole q (t ∷ ts) r h = elim (Bool-cases (t.connection_state == cs_noperm)) [
  | inl barred ↦
      (let r' = record r { error = insufficient_permissions } in
        rw (look_on q t ts r r' (rw barred refl), barred) (look-sole q ts r' h))
  | inr allowed ↦ elim (Bool-cases (fits_query q t)) [
    | inr other ↦
        rw (look_on q t ts r r (rw (allowed, other) refl), allowed, other) (look-sole q ts r h)
    | inl fit ↦ elim (Option-cases r.result) [
      | inl e ↦
          (let r' = record r { result = some t } in
            rw (look_on q t ts r r' (rw (allowed, fit, e) refl), allowed, fit, e)
              (look-sole q ts r' h))
      | inr (u, e) ↦
          (let r' : Found = record { result = none; ambiguous = true; error = more_than_one q } in
            rw (look_no_more q t ts r r' (rw (allowed, fit, e) refl), allowed, fit, e) (refl, refl))
    ]
  ]
]

check_state_lem :
    (q : Query) (t u : Choosable) → (check_state q t ≡ chosen u) ↔ ((t ≡ u) × IsUsable q t)
unfolding check_state
check_state_lem q t u = ground arith

waits_lem :
    (q : Query) (ts : List Choosable)
    → (waits q (several (candidates q ts)) ≡ true) ↔ IsPatient q ts
unfolding waits
waits_lem q ts = ground arith

sole_iff : (ts : List Choosable) (t : Choosable) → (sole ts ≡ some t) ↔ (ts ≡ t ∷ [])
sole_iff ts t = ground arith

taken_iff :
    (q : Query) (r : Found) (t : Choosable)
    → (taken q r ≡ chosen t) ↔ ((r.result ≡ some t) × IsUsable q t)
unfolding taken
taken_iff q r t = elim (Option-cases r.result) [
  | inl e ↦ rw e (ground arith)
  | inr (u, e) ↦ rw e (ground (arith, check_state_lem q u t))
]

-- What one look at the list gives.
taken-Only :
    (q : Query) (ts : List Choosable) (t : Choosable)
    → (taken q (look q ts not_found) ≡ chosen t) ↔ Only q ts t
taken-Only q ts t = ground (
  arith,
  taken_iff q (look q ts not_found) t,
  sole_iff (candidates q ts) t,
  look-sole q ts not_found refl,
)

waits-IsPatient :
    (q : Query) (ts : List Choosable)
    → (waits q (look q ts not_found).ambiguous ≡ true) ↔ IsPatient q ts
waits-IsPatient q ts = ground (arith, waits_lem q ts, look-sole q ts not_found refl)

-- acquire_one_transport chooses a transport exactly where that is the only one on the list with
-- permission that fits the query, in the state that the query asks for and neither offline nor
-- unauthorized, the first time that there is one; each time before, there was none, and the client asked
-- for a state and either named the transport or had not more than one that fits.
pub acquire_one_transport-FirstOnly :
    (q : Query) (rounds : List (List Choosable)) (t : Choosable)
    → (acquire_one_transport q rounds ≡ some (chosen t)) ↔ FirstOnly q rounds t
unfolding acquire_one_transport FirstOnly
acquire_one_transport-FirstOnly q [] t = ground arith
acquire_one_transport-FirstOnly q (ts ∷ later) t =
    look_again (taken q (look q ts not_found)) (λ u. taken-Only q ts u) (waits-IsPatient q ts)
      (acquire_one_transport-FirstOnly q later t)
  where
    look_again :
        (c : Choice)
        → ((u : Choosable) → (c ≡ chosen u) ↔ Only q ts u)
        → ((waits q (look q ts not_found).ambiguous ≡ true) ↔ IsPatient q ts)
        → ((acquire_one_transport q later ≡ some (chosen t)) ↔ FirstOnly q later t)
        → ((elim c as (λ _. Option Choice) [
          | chosen u ↦ some (chosen u)
          | refused fault ↦
              (if waits q (look q ts not_found).ambiguous
                then acquire_one_transport q later
                else some (refused fault))
        ])
            ≡ some (chosen t))
          ↔ FirstOnly q (ts ∷ later) t
    look_again (chosen u) only patient more =
        let (is_only, is_chosen) = only t in
        let (self, unused) = only u in
        (
          (λ e.
              inl (is_only (ap (λ o. elim o as (λ _. Choice) [ none ↦ chosen u | some c ↦ c ]) e))),
          (λ o. elim o [
            | inl here ↦ ap some (is_chosen here)
            | inr (nowhere, rest) ↦ absurd (nowhere u (self refl))
          ]),
        )
    look_again (refused fault) only patient more = ground (arith, only t)
