-- ===== src/Runtime/Outcomes.antt =====
-- Statements about how the runtime's calls end: what holds of the value and the world if a call
-- returns, and what holds of the world if it raises or stops.
use agent_runtime_lab.Prelude.{◌≡◌, refl, sym, subst}
use agent_runtime_lab.Result.{Result, ok, err}
use agent_runtime_lab.Effects.Executor.{Outcome, done, raised, stopped, of_result}
use agent_runtime_lab.Persistence.EventStore.{EventStore}
use agent_runtime_lab.Runtime.Events.{RuntimeWorld, Run, continue, ◌>>=◌, return, lift, query}

abbrev pub Ends :
    {A : Type 0}
    → (RuntimeWorld → Type 0)
    → (A → RuntimeWorld → Type 0)
    → Outcome A × RuntimeWorld
    → Type 0
Ends P Q (done a, w) = Q a w
Ends P Q (raised e, w) = P w
Ends P Q (stopped, w) = P w

-- From a world in which `S` holds, the call returns with `Q` or ends with `P`.
pub record Gives {A : Type 0} (S P : RuntimeWorld → Type 0) (m : Run A)
    (Q : A → RuntimeWorld → Type 0) : Type 0 where
  pub ends : (w : RuntimeWorld) → S w → Ends P Q (m w)

abbrev pub Keeps : {A : Type 0} → (RuntimeWorld → Type 0) → Run A → Type 0
Keeps P m = Gives P P m (λ _ w. P w)

Ends-continue :
    {A B : Type 0} {P : RuntimeWorld → Type 0} {Q : A → RuntimeWorld → Type 0}
    {R : B → RuntimeWorld → Type 0} (f : A → Run B) (end : Outcome A × RuntimeWorld)
    → ((a : A) → Gives (Q a) P (f a) R)
    → Ends P Q end
    → Ends P R (continue end.0 f end.1)
Ends-continue f (done a, w) next q = (next a).ends w q
Ends-continue f (raised e, w) next p = p
Ends-continue f (stopped, w) next p = p

pub Gives-bind :
    {A B : Type 0} {S P : RuntimeWorld → Type 0} {Q : A → RuntimeWorld → Type 0}
    {R : B → RuntimeWorld → Type 0} {m : Run A} {f : A → Run B}
    → Gives S P m Q
    → ((a : A) → Gives (Q a) P (f a) R)
    → Gives S P (m >>= f) R
Gives-bind {m = m} {f = f} first next = record {
  ends = λ w s. Ends-continue f (m w) next (first.ends w s);
}

module _ {A : Type 0} {S P : RuntimeWorld → Type 0} (weaken : (w : RuntimeWorld) → S w → P w) where
  Ends-result :
      (x : Result A) (w : RuntimeWorld) → S w → Ends P (λ a u. S u × (x ≡ ok a)) (of_result x, w)
  Ends-result (ok a) w s = (s, refl)
  Ends-result (err e) w s = weaken w s

  pub Gives-lift : (x : Result A) → Gives S P (lift x) (λ a w. S w × (x ≡ ok a))
  Gives-lift x = record { ends = λ w s. Ends-result x w s }

  Ends-query :
      (f : EventStore → Result A) (x : Result A) (w : RuntimeWorld)
      → f w.events ≡ x
      → S w
      → Ends P (λ a u. S u × (f u.events ≡ ok a)) (of_result x, w)
  Ends-query f (ok a) w e s = (s, e)
  Ends-query f (err x) w e s = weaken w s

  pub Gives-query :
      (f : EventStore → Result A) → Gives S P (query f) (λ a w. S w × (f w.events ≡ ok a))
  Gives-query f = record { ends = λ w s. Ends-query f (f w.events) w refl s }

pub Gives-return :
    {A : Type 0} {P : RuntimeWorld → Type 0} {Q : A → RuntimeWorld → Type 0} (a : A)
    → Gives (Q a) P (return a) Q
Gives-return a = record { ends = λ w q. q }

pub Ends-mono :
    {A : Type 0} (P : RuntimeWorld → Type 0) {Q Q' : A → RuntimeWorld → Type 0}
    (end : Outcome A × RuntimeWorld)
    → ((a : A) (w : RuntimeWorld) → Q a w → Q' a w)
    → Ends P Q end
    → Ends P Q' end
Ends-mono P (done a, w) more q = more a w q
Ends-mono P (raised e, w) more p = p
Ends-mono P (stopped, w) more p = p

pub Gives-mono :
    {A : Type 0} {S S' P : RuntimeWorld → Type 0} {Q Q' : A → RuntimeWorld → Type 0} {m : Run A}
    → ((w : RuntimeWorld) → S' w → S w)
    → ((a : A) (w : RuntimeWorld) → Q a w → Q' a w)
    → Gives S P m Q
    → Gives S' P m Q'
Gives-mono {P = P} {m = m} less more g = record {
  ends = λ w s. Ends-mono P (m w) more (g.ends w (less w s));
}

pub Ends-quiet :
    {A : Type 0} {S P : RuntimeWorld → Type 0} (weaken : (w : RuntimeWorld) → S w → P w)
    (end : Outcome A × RuntimeWorld)
    → S end.1
    → Ends P (λ a w. S w) end
Ends-quiet weaken (done a, w) s = s
Ends-quiet weaken (raised e, w) s = weaken w s
Ends-quiet weaken (stopped, w) s = weaken w s

-- A call that leaves the world as it was keeps all that holds.
pub Gives-quiet :
    {A : Type 0} {S P : RuntimeWorld → Type 0} {m : Run A}
    → ((w : RuntimeWorld) → S w → P w)
    → ((w : RuntimeWorld) → (m w).1 ≡ w)
    → Gives S P m (λ a w. S w)
Gives-quiet {S = S} {m = m} weaken same = record {
  ends = λ w s. Ends-quiet weaken (m w) (subst S (sym (same w)) s);
}

-- What is known of the world besides `S` may be used by what follows.
pub Gives-known :
    {A : Type 0} {S P F : RuntimeWorld → Type 0} {G : Type 0} {Q : A → RuntimeWorld → Type 0}
    {m : Run A}
    → ((w : RuntimeWorld) → F w → G)
    → (G → Gives S P m Q)
    → Gives (λ w. S w × F w) P m Q
Gives-known learn g = record { ends = λ w k. (g (learn w k.1)).ends w k.0 }

-- A result, whose error ends the call, and what follows it.
pub Gives-after_lift :
    {A B : Type 0} {S P : RuntimeWorld → Type 0} {Q : B → RuntimeWorld → Type 0}
    (weaken : (w : RuntimeWorld) → S w → P w) (x : Result A) {f : A → Run B}
    → ((a : A) → x ≡ ok a → Gives S P (f a) Q)
    → Gives S P (lift x >>= f) Q
Gives-after_lift weaken x next =
    Gives-bind {m = lift x} (Gives-lift weaken x) (λ a. Gives-known (λ w e. e) (next a))

Ends-weaken :
    {A : Type 0} (P P' : RuntimeWorld → Type 0) (Q : A → RuntimeWorld → Type 0)
    (end : Outcome A × RuntimeWorld)
    → ((w : RuntimeWorld) → P w → P' w)
    → Ends P Q end
    → Ends P' Q end
Ends-weaken P P' Q (done a, w) weaken q = q
Ends-weaken P P' Q (raised e, w) weaken p = weaken w p
Ends-weaken P P' Q (stopped, w) weaken p = weaken w p

-- Less is asked of a call that raises or stops.
pub Gives-weaken :
    {A : Type 0} {S P P' : RuntimeWorld → Type 0} {Q : A → RuntimeWorld → Type 0} {m : Run A}
    → ((w : RuntimeWorld) → P w → P' w)
    → Gives S P m Q
    → Gives S P' m Q
Gives-weaken {P = P} {P' = P'} {Q = Q} {m = m} weaken g = record {
  ends = λ w s. Ends-weaken P P' Q (m w) weaken (g.ends w s);
}
