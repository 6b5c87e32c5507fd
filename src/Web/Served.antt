-- ===== src/Web/Served.antt =====
-- Requests in a row. Which route the HTTP server takes for a request is a parameter.
use pi5_system_surrogate.Prelude.{
  ◌≡◌, ◌≢◌, refl, sym, ap, ◌∙◌, inl, inr, Option, none, some, Option-cases, List, [], ◌∷◌, Memᴰ,
  subst,
}
use pi5_system_surrogate.Prelude.Int.{ℤ, pos, ◌≤ℤ◌}
use pi5_system_surrogate.Prelude.Text.{Text}
use pi5_system_surrogate.Match.{MatchController}
use pi5_system_surrogate.Match.Phases.{perform-Untouched}
use pi5_system_surrogate.Web.{handle_match}
use pi5_system_surrogate.Web.Forms.{handle_match-calls, handle_set_control-Formed}
use pi5_system_surrogate.Web.Page.{
  Fixed, WebUi, Method, get, post, Handler, root_page, state_page, healthz, control_form,
  match_form, Route, routes, handle_state, handle_healthz, answer,
}

pub record Request : Type 0 where
  pub method : Method
  pub path : Text
  pub body : Text
  pub now : ℤ
  pub now_match : ℤ

abbrev pub Choice : Type 0
Choice = List Route → Method → Text → Option Route

-- A route that is taken is one of those registered, for the method and the path of the request.
pub record IsChoice (choose : Choice) : Type 0 where
  pub registered :
      (rs : List Route) (m : Method) (p : Text) (r : Route) → choose rs m p ≡ some r → Memᴰ r rs
  pub method :
      (rs : List Route) (m : Method) (p : Text) (r : Route) → choose rs m p ≡ some r → r.method ≡ m

-- The handlers of the pages.
abbrev pub OnlyReads : Handler → Type 0
OnlyReads control_form = ⊥
OnlyReads match_form = ⊥
OnlyReads h = Unit {0}

as_page : (r x : Route) → OnlyReads x.handler → r ≡ x → OnlyReads r.handler
as_page r x k e = subst OnlyReads (sym (ap (λ (y : Route). y.handler) e)) k

not_posted : (r x : Route) → x.method ≡ post → r.method ≡ get → r ≡ x → OnlyReads r.handler
not_posted r x p m e = absurd (clash (sym m ∙ ap (λ (y : Route). y.method) e ∙ p))
  where
    clash : get ≢ post
    clash = cc

get-OnlyReads : (r : Route) → r.method ≡ get → Memᴰ r routes → OnlyReads r.handler
unfolding routes
get-OnlyReads r m (Memᴰ.head e) = as_page r _ tt e
get-OnlyReads r m (Memᴰ.tail (Memᴰ.head e)) = as_page r _ tt e
get-OnlyReads r m (Memᴰ.tail (Memᴰ.tail (Memᴰ.head e))) = as_page r _ tt e
get-OnlyReads r m (Memᴰ.tail (Memᴰ.tail (Memᴰ.tail (Memᴰ.head e)))) = not_posted r _ refl m e
get-OnlyReads r m (Memᴰ.tail (Memᴰ.tail (Memᴰ.tail (Memᴰ.tail (Memᴰ.head e))))) =
    not_posted r _ refl m e
get-OnlyReads r m (Memᴰ.tail (Memᴰ.tail (Memᴰ.tail (Memᴰ.tail (Memᴰ.tail none_left))))) =
    elim none_left [ ]

module _ (html : Text) (fixed : Fixed) (choose : Choice) where
  -- A request without a route reaches no handler.
  abbrev pub handled : Request → WebUi → Option Route → WebUi
  handled q w none = w
  handled q w (some r) = (answer html fixed q.now q.now_match r.handler q.body w).1

  unfoldable pub serve : Request → WebUi → WebUi
  serve q w = handled q w (choose routes q.method q.path)

  unfoldable pub serve_all : List Request → WebUi → WebUi
  unfolding serve
  serve_all [] w = w
  serve_all (q ∷ qs) w = serve_all qs (serve q w)

  -- The alliance in the shared state is between 0 and 3.
  pub record Bounded (w : WebUi) : Type 0 where
    pub low : pos 0 ≤ℤ w.match_controller.state.alliance
    pub high : w.match_controller.state.alliance ≤ℤ pos 3

  keeps_alliance :
      (w w' : WebUi)
      → (w'.match_controller.state.alliance ≡ w.match_controller.state.alliance)
      → Bounded w
      → Bounded w'
  keeps_alliance w w' e k = record {
    low = subst (λ a. pos 0 ≤ℤ a) (sym e) k.low;
    high = subst (λ a. a ≤ℤ pos 3) (sym e) k.high;
  }

  handle_match-alliance :
      (now : ℤ) (body : Text) (c : MatchController)
      → (handle_match now body c).state.alliance ≡ c.state.alliance
  handle_match-alliance now body c = elim (handle_match-calls now body c) [
    | inl e ↦ ap (λ (d : MatchController). d.state.alliance) e
    | inr (call, e) ↦
        ap (λ (d : MatchController). d.state.alliance) e ∙ (perform-Untouched call c).alliance
  ]

  answer-Bounded :
      (q : Request) (h : Handler) (w : WebUi)
      → Bounded w
      → Bounded (answer html fixed q.now q.now_match h q.body w).1
  unfolding answer handle_state handle_healthz
  answer-Bounded q root_page w k = k
  answer-Bounded q state_page w k = record { low = k.low; high = k.high }
  answer-Bounded q healthz w k = record { low = k.low; high = k.high }
  answer-Bounded q control_form w k =
      elim (handle_set_control-Formed q.body w.match_controller.state).alliance [
        | inl e ↦ keeps_alliance w _ e k
        | inr (low, high) ↦ record { low = low; high = high }
      ]
  answer-Bounded q match_form w k =
      keeps_alliance w _ (handle_match-alliance q.now_match q.body w.match_controller) k

  handled-Bounded :
      (q : Request) (w : WebUi) (o : Option Route) → Bounded w → Bounded (handled q w o)
  handled-Bounded q w none k = k
  handled-Bounded q w (some r) k = answer-Bounded q r.handler w k

  -- Whatever requests come and whatever routes the server takes for them, an alliance in the shared
  -- state that is between 0 and 3 stays so.
  pub serve_all-Bounded : (qs : List Request) (w : WebUi) → Bounded w → Bounded (serve_all qs w)
  unfolding serve_all serve
  serve_all-Bounded [] w k = k
  serve_all-Bounded (q ∷ qs) w k =
      serve_all-Bounded qs (serve q w) (handled-Bounded q w (choose routes q.method q.path) k)

  answer-reads :
      (q : Request) (h : Handler) (w : WebUi)
      → OnlyReads h
      → let w' = (answer html fixed q.now q.now_match h q.body w).1 in
        (w'.match_controller ≡ w.match_controller) × (w'.smartio ≡ w.smartio)
  unfolding answer handle_state handle_healthz
  answer-reads q root_page w k = (refl, refl)
  answer-reads q state_page w k = (refl, refl)
  answer-reads q healthz w k = (refl, refl)
  answer-reads q control_form w k = absurd k
  answer-reads q match_form w k = absurd k

  -- A GET request changes neither the match controller, with the shared state, nor the bridge, for
  -- a server that takes only registered routes of the request's method.
  pub serve-get :
      (q : Request) (w : WebUi)
      → IsChoice choose
      → q.method ≡ get
      → ((serve q w).match_controller ≡ w.match_controller) × ((serve q w).smartio ≡ w.smartio)
  unfolding serve
  serve-get q w ok e = elim (Option-cases (choose routes q.method q.path)) [
    | inl no_route ↦ rw (serve, no_route) (refl, refl)
    | inr (r, taken) ↦
        rw (serve, taken)
          (answer-reads q r.handler w
            (get-OnlyReads r (ok.method _ _ _ r taken ∙ e) (ok.registered _ _ _ r taken)))
  ]
