-- ===== src/Errors/Post.antt =====
-- What holds after an operation on a state that may raise: one thing when it returns, another when it raises.
use nawat.Errors.{Error, Result, ok, err, ◌▷◌}

pub data Post {S A : Type 0} (P : A → S → Type 0) (Q : S → Type 0) : S × Result A → Type 0 where
  returned : {a : A} {s : S} → P a s → Post P Q (s, ok a)
  raised : {e : Error} {s : S} → Q s → Post P Q (s, err e)

module _ {S A : Type 0} where
  pub Post-▷ :
      {B : Type 0} {P : A → S → Type 0} {R : B → S → Type 0} {Q : S → Type 0}
      (f : A → S → S × Result B) {m : S × Result A}
      → Post P Q m
      → ((a : A) (s : S) → P a s → Post R Q (f a s))
      → Post R Q (m ▷ f)
  Post-▷ f (returned {a} {s} p) k = k a s p
  Post-▷ f (raised q) k = raised q

  pub widen_Post :
      {P R : A → S → Type 0} {Q T : S → Type 0} {m : S × Result A}
      → Post P Q m
      → ((a : A) (s : S) → P a s → R a s)
      → ((s : S) → Q s → T s)
      → Post R T m
  widen_Post (returned {a} {s} p) f g = returned (f a s p)
  widen_Post (raised {s = s} q) f g = raised (g s q)

  -- What holds either way holds of the state.
  pub Post-state : {Q : S → Type 0} {m : S × Result A} → Post (λ a s. Q s) Q m → Q m.0
  Post-state (returned p) = p
  Post-state (raised q) = q

  pub state-Post : {Q : S → Type 0} (m : S × Result A) → Q m.0 → Post (λ a s. Q s) Q m
  state-Post (s, ok a) q = returned q
  state-Post (s, err e) q = raised q
