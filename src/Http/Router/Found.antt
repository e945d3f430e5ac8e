-- ===== src/Http/Router/Found.antt =====
-- What holds of all routes holds of the one that a request finds.
use xrpl_credit_orchestrator.Prelude.{
  none, some, List, [], ◌∷◌, ◌==◌, ◌≡◌, sym, ap, ◌∙◌, inl, inr, All, Bool-cases, Option-cases,
  subst,
}
use xrpl_credit_orchestrator.Http.Router.{Route, Request, chosen, find_route}
use xrpl_credit_orchestrator.Http.Pattern.{Params, match_path}

some_inj : {A : Type 0} {a b : A} → some a ≡ some b → a ≡ b
some_inj e = cc

-- What holds of every route holds of the one that a request finds.
pub find_route-All :
    {H : Type 0} (P : Route H → Type 0) (rs : List (Route H)) (req : Request)
    (hit : Route H × Params)
    → All P rs
    → find_route rs req ≡ some hit
    → P hit.0
unfolding find_route
find_route-All P [] req hit all h = absurd (cc)
find_route-All {H} P (r ∷ rs) req hit all h = elim (Bool-cases (r.method == req.method)) [
  | inr other ↦ find_route-All P rs req hit all.1 (rw other at h)
  | inl same ↦ elim (Option-cases (match_path r.compiled req.pathname)) [
    | inl miss ↦ find_route-All P rs req hit all.1 (next miss (rw same at h))
    | inr (params, match) ↦ subst (λ q. P q.0) (first params match (rw same at h)) all.0
  ]
]
  where
    next :
        match_path r.compiled req.pathname ≡ none
        → chosen (match_path r.compiled req.pathname) r (find_route rs req) ≡ some hit
        → find_route rs req ≡ some hit
    next miss e = ap (λ o. chosen o r (find_route rs req)) (sym miss) ∙ e

    first :
        (params : Params)
        → match_path r.compiled req.pathname ≡ some params
        → chosen (match_path r.compiled req.pathname) r (find_route rs req) ≡ some hit
        → ◌≡◌ {A = Route H × Params} (r, params) hit
    first params match e = some_inj (ap (λ o. chosen o r (find_route rs req)) (sym match) ∙ e)
