-- ===== src/Pool/Steps.antt =====
-- What one step does to the thread that goes and to the others.
use sql_ai_tools.Prelude.{ℕ, ◌≡◌, ◌≢◌, refl, ◌==◌, ==_iff, Bool-cases, inl, inr}
use sql_ai_tools.Pool.{Pool}
use sql_ai_tools.Pool.System.{Pc, Event, act, System, step}

-- A step of the thread that stands at `k`.
pub step-at :
    (ev : Event) (s : System) (k : Pc) (p q : Pool) (k' : Pc)
    → s.pc ev.thread ≡ k
    → s.pool ≡ p
    → act ev ev.thread k p ≡ (q, k')
    → ((step ev s).pool ≡ q) × ((step ev s).pc ev.thread ≡ k')
unfolding step
step-at ev s k p q k' at here e = rw (at, here, e, (==_iff ev.thread ev.thread).1 refl) (refl, refl)

pub step-other : (ev : Event) (s : System) (j : ℕ) → ev.thread ≢ j → (step ev s).pc j ≡ s.pc j
unfolding step
step-other ev s j ne = elim (Bool-cases (ev.thread == j)) [
  | inl e ↦ absurd (ne ((==_iff ev.thread j).0 e))
  | inr e ↦ rw e refl
]
