-- ===== src/System/Finish.antt =====
-- From any state of the client as a whole (internal/core/analytics.go) in which `Close` has been called, the
-- loop can come to its end.
use origamy_go_sdk.Base.{
  ℕ, zero, suc, ◌≡◌, refl, ap, ◌∙◌, true, Option, none, some, List, [], ◌∷◌, ◌++◌, arith, length,
  ◌==◌, if◌then◌else◌,
}
use origamy_go_sdk.Data.{Error, ok}
use origamy_go_sdk.Batch.{Serialized}
use origamy_go_sdk.Client.Send.{Effect, accepted, timer}
use origamy_go_sdk.Client.Loop.{Settings}
use origamy_go_sdk.System.Sending
use origamy_go_sdk.System.Sending.{
  Sender, starting, attempting, pausing, finishing, Choice, marshals, replies, wakes, goes, Outcome,
}
use origamy_go_sdk.System.{
  joining, returned, System, quit_case, loop_at, loop_act, loop_acts, sender_acts, Step, moves,
  kept, leave, Reach, start, next,
}

module _ (cfg : Settings) where
  abbrev pub Ends : System → Type 0
  Ends s = (u : System) × Reach cfg s u × (u.stage ≡ returned)

  first : {s t u : System} → Step cfg s t → Reach cfg t u → Reach cfg s u
  first a start = next start a
  first a (next r b) = next (first a r) b

  pub step-Ends : {s t : System} → Step cfg s t → Ends t → Ends s
  step-Ends a (u, r, e) = (u, first a r, e)

  -- The loop waits for the goroutines.
  abbrev pub Joins : System → List Sender → Type 0
  Joins s ts = (s.stage ≡ joining) × (s.senders ≡ ts) × (s.wait ≡ length ts)

  leave-length :
      (u : Option Sender) (ts : List Sender) (n : ℕ)
      → n ≡ suc (length ts)
      → leave u n ≡ length (kept u ++ ts)
  leave-length none ts n h = omega (arith, h)
  leave-length (some t) ts n h = omega (arith, h)

  sender_step :
      (s : System) (t : Sender) (ts : List Sender) (ch : Choice) (o : Outcome)
      → Joins s (t ∷ ts)
      → Sending.act cfg.callback s.lifecycle.quit ch t ≡ some o
      → ((u : System) → Joins u (kept o.sender ++ ts) → Ends u)
      → Ends s
  sender_step s t ts ch o (p, q, w) e k =
      step-Ends (moves (sender_acts [] t ts ch o q e))
        (k _ (p, refl, leave-length o.sender ts s.wait (omega (arith, w))))

  module _ (ts : List Sender) (rest : (u : System) → Joins u ts → Ends u) where
    finishing-Ends : (es : List Effect) (s : System) → Joins s (finishing es ∷ ts) → Ends s
    unfolding Sending.act
    finishing-Ends [] s j = sender_step s (finishing []) ts goes _ j refl rest
    finishing-Ends (e ∷ es) s j =
        sender_step s (finishing (e ∷ es)) ts goes _ j refl (finishing-Ends es)

    attempting-Ends :
        (b : List ℕ) (msgs : List Serialized) (left i : ℕ) (e : Error) (s : System)
        → Joins s (attempting b msgs left i e ∷ ts)
        → Ends s
    unfolding Sending.act
    attempting-Ends b msgs zero i e s j =
        sender_step s (attempting b msgs zero i e) ts goes _ j refl (finishing-Ends _)
    attempting-Ends b msgs (suc left) i e s j =
        sender_step s (attempting b msgs (suc left) i e) ts (replies accepted) _ j refl
          (finishing-Ends _)

    sender-Ends : (t : Sender) (s : System) → Joins s (t ∷ ts) → Ends s
    unfolding Sending.act
    sender-Ends (starting msgs) s j =
        sender_step s (starting msgs) ts (marshals (ok [])) _ j refl (attempting-Ends _ _ _ _ _)
    sender-Ends (attempting b msgs left i e) s j = attempting-Ends b msgs left i e s j
    sender-Ends (pausing b msgs left i e) s j =
        sender_step s (pausing b msgs left i e) ts (wakes timer) _ j refl
          (attempting-Ends _ _ _ _ _)
    sender-Ends (finishing es) s j = finishing-Ends es s j

  abbrev returns : System → System
  returns s = record s { stage = returned; lifecycle = record s.lifecycle { shutdown = true } }

  pub joining-Ends : (ts : List Sender) (s : System) → Joins s ts → Ends s
  unfolding loop_act
  joining-Ends [] s (p, q, w) = (
    returns s,
    next start (
        moves (
          loop_acts quit_case (
            ap (λ p. loop_at cfg p quit_case s) p
            ∙ ap (λ n. if n == 0 then some (returns s) else none) w))),
    refl,
  )
  joining-Ends (t ∷ ts) s j = sender-Ends ts (joining-Ends ts) t s j
