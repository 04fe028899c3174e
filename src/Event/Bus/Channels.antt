-- ===== src/Event/Bus/Channels.antt =====
-- internal/event/bus.go: channels that are open, and lists of their subscriptions.
use tailflow_agent.Prelude.{
  ℕ, zero, suc, ◌<◌, ◌≡◌, refl, sym, ◌∙◌, ap, inl, inr, Bool, true, false, not, ◌||◌, some, List,
  [], ◌∷◌, ◌++◌, length, get_elem?, set, arith, eqb, All, All-map, Bool-cases,
}
use tailflow_agent.Event.Bus.{Channel, Subscription, Publisher, Bus, remove_channel, has_channel}

abbrev pub is_open : List Channel → ℕ → Bool
is_open [] i = false
is_open (c ∷ cs) zero = not c.closed
is_open (c ∷ cs) (suc i) = is_open cs i

pub open_found :
    (cs : List Channel) (i : ℕ) (c : Channel)
    → is_open cs i ≡ true
    → get_elem? cs i ≡ some c
    → c.closed ≡ false
open_found [] i c h e = absurd (cc h)
open_found (d ∷ cs) zero c h e = ground arith
open_found (d ∷ cs) (suc i) c h e = open_found cs i c h e

pub open_there :
    (cs : List Channel) (i : ℕ)
    → is_open cs i ≡ true
    → (c : Channel) × (get_elem? cs i ≡ some c) × (c.closed ≡ false)
open_there [] i h = absurd (cc h)
open_there (d ∷ cs) zero h = (d, refl, ground arith)
open_there (d ∷ cs) (suc i) h = open_there cs i h

pub open-append :
    (cs : List Channel) (c : Channel) (i : ℕ)
    → is_open cs i ≡ true
    → is_open (cs ++ c ∷ []) i ≡ true
open-append [] c i h = absurd (cc h)
open-append (d ∷ cs) c zero h = h
open-append (d ∷ cs) c (suc i) h = open-append cs c i h

pub open_last :
    (cs : List Channel) (c : Channel) → c.closed ≡ false → is_open (cs ++ c ∷ []) (length cs) ≡ true
open_last [] c h = rw h refl
open_last (d ∷ cs) c h = open_last cs c h

pub open_lt : (cs : List Channel) (i : ℕ) → is_open cs i ≡ true → i < length cs
open_lt [] i h = absurd (cc h)
open_lt (d ∷ cs) zero h = omega arith
open_lt (d ∷ cs) (suc i) h = omega (arith, open_lt cs i h)

pub open-set_same :
    (cs : List Channel) (i j : ℕ) (c c' : Channel)
    → get_elem? cs i ≡ some c
    → c'.closed ≡ c.closed
    → is_open (set cs i c') j ≡ is_open cs j
open-set_same [] i j c c' e h = refl
open-set_same (d ∷ cs) zero zero c c' e h = ground arith
open-set_same (d ∷ cs) zero (suc j) c c' e h = refl
open-set_same (d ∷ cs) (suc i) zero c c' e h = refl
open-set_same (d ∷ cs) (suc i) (suc j) c c' e h = open-set_same cs i j c c' e h

pub open-set_ne :
    (cs : List Channel) (i j : ℕ) (c : Channel)
    → eqb j i ≡ false
    → is_open (set cs i c) j ≡ is_open cs j
open-set_ne [] i j c h = refl
open-set_ne (d ∷ cs) zero zero c h = absurd (ground arith)
open-set_ne (d ∷ cs) zero (suc j) c h = refl
open-set_ne (d ∷ cs) (suc i) zero c h = refl
open-set_ne (d ∷ cs) (suc i) (suc j) c h = open-set_ne cs i j c (ground arith)

abbrev pub AllOpen : List Channel → List Subscription → Type 0
AllOpen cs ss = All (λ s. is_open cs s.ch ≡ true) ss

-- No channel has two subscriptions.
abbrev pub Distinct : List Subscription → Type 0
Distinct [] = Unit
Distinct (s ∷ ss) = (has_channel s.ch ss ≡ false) × Distinct ss

-- What is open stays open.
abbrev pub Keeps : List Channel → List Channel → Type 0
Keeps cs cs' = (i : ℕ) → is_open cs i ≡ true → is_open cs' i ≡ true

pub AllOpen-kept :
    (cs cs' : List Channel) (ss : List Subscription) → Keeps cs cs' → AllOpen cs ss → AllOpen cs' ss
AllOpen-kept cs cs' ss k h = All-map ss (λ s o. k s.ch o) h

pub All-kept :
    (cs cs' : List Channel) (ps : List Publisher)
    → Keeps cs cs'
    → All (λ p. AllOpen cs p.rest) ps
    → All (λ p. AllOpen cs' p.rest) ps
All-kept cs cs' ps k h = All-map ps (λ p o. AllOpen-kept cs cs' p.rest k o) h

pub All-split {κ} :
    {P : Publisher → Type κ} (before after : List Publisher) (p : Publisher)
    → All P (before ++ p ∷ after)
    → P p × ((q : Publisher) → P q → All P (before ++ q ∷ after)) × All P (before ++ after)
All-split [] after p h = (h.0, λ q o. (o, h.1), h.1)
All-split (x ∷ before) after p h =
    let (at, put, gone) = All-split before after p h.1 in (at, λ q o. (h.0, put q o), (h.0, gone))

pub nobody : (P : Publisher → Type 0) (b : Bus) → b.publishers ≡ [] → All P b.publishers
nobody P b h = rw h tt

pub fresh_channel :
    (cs : List Channel) (ss : List Subscription) (n : ℕ)
    → AllOpen cs ss
    → length cs ≡ n
    → has_channel n ss ≡ false
fresh_channel cs [] n h e = refl
fresh_channel cs (s ∷ ss) n h e = ground (arith, open_lt cs s.ch h.0, fresh_channel cs ss n h.1 e)

pub has_channel-append :
    (i : ℕ) (ss : List Subscription) (s : Subscription)
    → has_channel i (ss ++ s ∷ []) ≡ (has_channel i ss || eqb s.ch i)
has_channel-append i [] s = ground arith
has_channel-append i (t ∷ ss) s = ground (arith, has_channel-append i ss s)

pub Distinct-append :
    (ss : List Subscription) (s : Subscription)
    → Distinct ss
    → has_channel s.ch ss ≡ false
    → Distinct (ss ++ s ∷ [])
Distinct-append [] s d h = (refl, tt)
Distinct-append (t ∷ ss) s d h =
    (ground (arith, has_channel-append t.ch ss s, d.0), Distinct-append ss s d.1 (ground arith))

pub All-last :
    (cs : List Channel) (ss : List Subscription) (s : Subscription)
    → AllOpen cs ss
    → is_open cs s.ch ≡ true
    → AllOpen cs (ss ++ s ∷ [])
All-last cs [] s h o = (o, tt)
All-last cs (t ∷ ss) s h o = (h.0, All-last cs ss s h.1 o)

-- The subscriptions of the other channels stay.
pub AllOpen-close :
    (cs : List Channel) (i : ℕ) (c : Channel) (ss : List Subscription)
    → has_channel i ss ≡ false
    → AllOpen cs ss
    → AllOpen (set cs i c) ss
AllOpen-close cs i c [] h o = tt
AllOpen-close cs i c (s ∷ ss) h o =
    (open-set_ne cs i s.ch c (ground arith) ∙ o.0, AllOpen-close cs i c ss (ground arith) o.1)

pub removed :
    (cs : List Channel) (i : ℕ) (ss : List Subscription)
    → AllOpen cs ss
    → Distinct ss
    → AllOpen cs (remove_channel i ss)
      × Distinct (remove_channel i ss)
      × (has_channel i (remove_channel i ss) ≡ false)
      × ((j : ℕ) → has_channel j ss ≡ false → has_channel j (remove_channel i ss) ≡ false)
      × (has_channel i ss ≡ true → is_open cs i ≡ true)
removed cs i [] o d = (tt, tt, refl, λ j h. refl, λ h. absurd (cc h))
removed cs i (s ∷ ss) o d = elim (Bool-cases (eqb s.ch i)) [
  | inl same ↦
      let at : s.ch ≡ i = ground arith in
      rw same (
        o.1,
        d.1,
        ap (λ j. has_channel j ss) (sym at) ∙ d.0,
        λ j h. ground arith,
        λ h. ap (is_open cs) (sym at) ∙ o.0,
      )
  | inr other ↦
      let ih = removed cs i ss o.1 d.1 in
      rw other (
        (o.0, ih.0),
        (ih.3 s.ch d.0, ih.1),
        rw other ih.2,
        λ j h. ground (arith, ih.3 j),
        λ h. ih.4 h,
      )
]
