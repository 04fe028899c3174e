-- ===== src/Engine/Dag/Kahn.antt =====
-- internal/engine/dag.go, topoSort: the invariant of Kahn's loop.
use tailflow_agent.Prelude.{
  ℕ, ◌+◌, ◌-◌, ◌≤◌, String, ◌≡◌, refl, true, false, List, [], ◌∷◌, ◌++◌, arith, length, contains,
  count, count-append, if◌then◌else◌, ◌==◌, eq_iff, eqb, All,
}
use tailflow_agent.Prelude.Dict.{Dict, insert, lookup-insert}
use tailflow_agent.Prelude.Int.{ℤ, pos, dec, is_zero}
use tailflow_agent.Engine.Dag.{degree, relax}

-- How many of the parents are not done yet.
abbrev pub pending : List String → List String → ℕ
pending done [] = 0
pending done (p ∷ ps) = (if contains p done then 0 else 1) + pending done ps

pub contains_snoc :
    (k x : String) (done : List String)
    → contains k (done ++ x ∷ []) ≡ (if x == k then true else contains k done)
contains_snoc k x [] = ground arith
contains_snoc k x (y ∷ done) = ground (arith, contains_snoc k x done)

-- Doing one more id settles its occurrences among the parents.
pub pending_snoc :
    (x : String) (done ps : List String)
    → contains x done ≡ false
    → pending (done ++ x ∷ []) ps + count x ps ≡ pending done ps
pending_snoc x done [] h = refl
pending_snoc x done (p ∷ ps) h =
    ground (arith, pending_snoc x done ps h, contains_snoc p x done, eq_iff x p, eq_iff p x)

pub pending_nil : (ps : List String) → pending [] ps ≡ length ps
pending_nil [] = refl
pending_nil (p ∷ ps) = omega (arith, pending_nil ps)

-- With nothing pending, all parents are done.
pub done_of_pending :
    (done ps : List String) → pending done ps ≡ 0 → All (λ p. contains p done ≡ true) ps
done_of_pending done [] h = tt
done_of_pending done (p ∷ ps) h = (ground arith, done_of_pending done ps (ground arith))

-- 1 where the last of `c` occurrences brings a degree `n` to 0.
abbrev pub newly : ℕ → ℕ → ℕ
newly c n = if eqb c 0 then 0 else if eqb c n then 1 else 0

pub record Relaxed (cs : List String) (m : Dict ℤ) (queue : List String) (n : String → ℕ)
    (k : String) : Type 0 where
  pub degrees : degree (relax cs m queue).0 k ≡ pos (n k - count k cs)
  pub queued : count k (relax cs m queue).1 ≡ count k queue + newly (count k cs) (n k)

-- The degrees with one occurrence of `c` taken off.
abbrev lowered : String → (String → ℕ) → String → ℕ
lowered c n k = if c == k then n k - 1 else n k

module _ (c : String) (m : Dict ℤ) (n : String → ℕ) (deg : (k : String) → degree m k ≡ pos (n k))
    (room : 1 ≤ n c) where
  abbrev after : Dict ℤ
  after = insert c (dec (degree m c)) m

  degree-after : (k : String) → degree after k ≡ pos (lowered c n k)
  degree-after k =
      rw (lookup-insert c k (dec (degree m c)) m) (ground (arith, deg c, deg k, eq_iff c k))

pub relax-Relaxed :
    (cs : List String) (m : Dict ℤ) (queue : List String) (n : String → ℕ)
    → ((k : String) → degree m k ≡ pos (n k))
    → ((k : String) → count k cs ≤ n k)
    → (k : String) → Relaxed cs m queue n k
unfolding relax
relax-Relaxed [] m queue n deg room k = record {
  degrees = ground (arith, deg k);
  queued = ground arith;
}
relax-Relaxed (c ∷ cs) m queue n deg room k =
    let here : 1 ≤ n c = ground (arith, room c, eq_iff c c) in
    let now = degree-after c m n deg here in
    let queue' = if is_zero (degree (after c m n deg here) c) then queue ++ c ∷ [] else queue in
    let ih =
      relax-Relaxed cs (after c m n deg here) queue' (lowered c n) now
        (λ j. ground (arith, room j, eq_iff c j)) k in
    record {
      degrees = ground (arith, ih.degrees, eq_iff c k);
      queued = ground (
        arith,
        ih.queued,
        eq_iff c k,
        eq_iff c c,
        now c,
        room c,
        room k,
        count-append k queue (c ∷ []),
      );
    }
