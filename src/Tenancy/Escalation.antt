-- ===== src/Tenancy/Escalation.antt =====
-- The planes of apps/tenancy/context.py: what a process of the portal can reach, and what the
-- blocks `scoped`, `operator_scope` and `portal_plane` give back.
use mathlib.Core.List.{Memᴰ}
use trend_engine_backend.Base.{ℕ, Bool, ◌≡◌, ◌≢◌, refl, List, [], ◌∷◌, ok, err, arith, All, subst}
use trend_engine_backend.Tenancy.Context.{
  Context, Tenant, operator_all, Plane, portal_process, escalation_error, Block, scoped,
  operator_scope, fresh, bind_tenant, bind_operator_all, reset,
}

-- A process between two statements: its context, and every token that it has been handed.
pub record Process : Type 0 where
  pub context : Context
  pub tokens : List Tenant

abbrev pub started : Process
started = record { context = fresh; tokens = [] }

-- Any call of the module's functions, in any order; `reset` takes any token handed out so far.
pub data Step (plane : Plane) (p : Process) : Process → Type 0 where
  binds :
      (organization : ℕ)
      → Step plane p (record {
        context = (bind_tenant organization p.context).1;
        tokens = (bind_tenant organization p.context).0 ∷ p.tokens;
      })
  binds_all :
      (token : Tenant)
      → (bind_operator_all plane p.context).0 ≡ ok token
      → Step plane p
          (record { context = (bind_operator_all plane p.context).1; tokens = token ∷ p.tokens })
  refused :
      (bind_operator_all plane p.context).0 ≡ err escalation_error
      → Step plane p (record p { context = (bind_operator_all plane p.context).1 })
  resets :
      (token : Tenant)
      → Memᴰ token p.tokens
      → Step plane p (record p { context = reset token p.context })
  marks : (b : Bool) → Step plane p (record p { context = record p.context { portal_flag = b } })

pub data Reach (plane : Plane) : Process → Type 0 where
  starts : Reach plane started
  steps : {p q : Process} → Reach plane p → Step plane p q → Reach plane q

abbrev IsNarrow : Tenant → Type 0
IsNarrow t = t ≢ operator_all

record Inv (p : Process) : Type 0 where
  narrow : IsNarrow p.context.tenant
  tokens_narrow : All IsNarrow p.tokens

token-IsNarrow : (t : Tenant) (ts : List Tenant) → All IsNarrow ts → Memᴰ t ts → IsNarrow t
token-IsNarrow t [] h m = elim m [ ]
token-IsNarrow t (u ∷ us) h (Memᴰ.head e) = λ q. h.0 (subst (λ x. x ≡ operator_all) e q)
token-IsNarrow t (u ∷ us) h (Memᴰ.tail m) = token-IsNarrow t us h.1 m

Step-Inv : (p q : Process) → Step portal_process p q → Inv p → Inv q
unfolding bind_operator_all
Step-Inv p q (binds o) h = record { narrow = λ e. cc; tokens_narrow = (h.narrow, h.tokens_narrow) }
Step-Inv p q (binds_all t e) h = cc
Step-Inv p q (refused e) h = h
Step-Inv p q (resets t m) h = record {
  narrow = token-IsNarrow t p.tokens h.tokens_narrow m;
  tokens_narrow = h.tokens_narrow;
}
Step-Inv p q (marks b) h = record { narrow = h.narrow; tokens_narrow = h.tokens_narrow }

Reach-Inv : (p : Process) → Reach portal_process p → Inv p
Reach-Inv p starts = record { narrow = λ e. cc; tokens_narrow = tt }
Reach-Inv p (steps {p = o} r st) = Step-Inv o p st (Reach-Inv o r)

-- In a process of the portal, no sequence of calls of the context module reaches the operators'
-- scope.
pub portal_never_operator : (p : Process) → Reach portal_process p → p.context.tenant ≢ operator_all
portal_never_operator p r = (Reach-Inv p r).narrow

-- However its block ends, and whatever the block leaves bound, `scoped` and `operator_scope` give
-- back the tenant that was bound before.
pub scopes_restore :
    {A : Type 0} (plane : Plane) (organization : ℕ) (body : Block A) (c : Context)
    → ((scoped organization body c).1.tenant ≡ c.tenant)
      × ((operator_scope plane body c).1.tenant ≡ c.tenant)
unfolding scoped operator_scope
scopes_restore plane o body c = (refl, ground arith)
