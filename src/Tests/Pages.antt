-- ===== src/Tests/Pages.antt =====
-- The pages, the requests, the diagnostics and the messages to systemd at concrete inputs.
use pi5_system_surrogate.Prelude.{
  Memᴰ, ◌≡◌, ◌≢◌, refl, sym, subst, Bool, true, false, Bool-cases, inl, inr, ◌&&◌, if◌then◌else◌,
  Option, none, some, List, [], ◌∷◌, ◌++◌, length, arith, drop,
}
use pi5_system_surrogate.Prelude.Int.{pos}
use pi5_system_surrogate.Prelude.Text.{Text, codes}
use pi5_system_surrogate.DaemonState.{fresh}
use pi5_system_surrogate.Match.{match_controller, default_durations}
use pi5_system_surrogate.Cadence.{new_tracker}
use pi5_system_surrogate.Cadence.History.{recent, Tracks, new_tracker-Tracks}
use pi5_system_surrogate.Cadence.Percentile.{percentile_of}
use pi5_system_surrogate.Web.{same_text}
use pi5_system_surrogate.Web.Page.{
  Fixed, readings, WebUi, Method, get, post, Route, routes, handle_state,
}
use pi5_system_surrogate.Web.Buttons.{
  SearchParams, auto_button, onclick, asked_for, KeepsPlain, FindsPath, serve-onclick,
}
use pi5_system_surrogate.Web.Shown.{document}
use pi5_system_surrogate.Web.Reader.{read_document}
use pi5_system_surrogate.Web.Readable.{FormatsNumerals, handle_state-reads}
use pi5_system_surrogate.Web.Served.{
  Request, Choice, IsChoice, serve, serve_all, Bounded, serve_all-Bounded, serve-get,
}
use pi5_system_surrogate.Web.{alliance_key, equals_sign, handle_set_control}
use pi5_system_surrogate.Web.Kept.{nearest, handle_set_control-nearest}
use pi5_system_surrogate.Prelude.Decimal.{decimal_ℤ}
use pi5_system_surrogate.Diagnostics.{Second, diagnostics_publisher, run}
use pi5_system_surrogate.Diagnostics.Heartbeat.{reports, run-reports}
use pi5_system_surrogate.Runtime.{watchdog, ready, notify}
use pi5_system_surrogate.Runtime.Address.{Reaches, up_to_nul, notify-path, notify-abstract}

abbrev fixed : Fixed
fixed digits n d = codes "0.5"

abbrev ui : WebUi
ui = record {
  match_controller = match_controller fresh default_durations;
  smartio = [];
  cadence = new_tracker;
  start_time = pos 7;
}

formats_numerals : FormatsNumerals fixed
formats_numerals places n d = refl

handle_state-reads_example :
    (read_document (handle_state fixed (pos 9) (pos 9) ui).0
      ≡ some (
          document fixed (
            readings
              (pos 9)
              (pos 9)
              ui
              (percentile_of 50 [])
              (percentile_of 99 [])
              (length (recent [])))))
    × Tracks [] (handle_state fixed (pos 9) (pos 9) ui).1.cadence
handle_state-reads_example =
    handle_state-reads fixed (pos 9) (pos 9) [] ui formats_numerals new_tracker-Tracks

abbrev same_method : Method → Method → Bool
same_method get get = true
same_method post post = true
same_method _ _ = false

abbrev matches : Method → Text → Route → Bool
matches m p r = same_method r.method m && same_text r.path p

-- The first route that fits.
unfoldable first_route : Choice
first_route [] m p = none
first_route (r ∷ rs) m p = let rest = first_route rs m p in if matches m p r then some r else rest

same_method_eq : (a b : Method) → same_method a b ≡ true → a ≡ b
same_method_eq get get e = refl
same_method_eq post post e = refl
same_method_eq get post e = cc
same_method_eq post get e = cc

matches-method : (m : Method) (p : Text) (r : Route) → matches m p r ≡ true → r.method ≡ m
matches-method m p r e = same_method_eq r.method m (ground arith)

some_route : {a b : Route} → ◌≡◌ {A = Option Route} (some a) (some b) → b ≡ a
some_route e = cc

first_route-found :
    (rs : List Route) (m : Method) (p : Text) (r : Route)
    → first_route rs m p ≡ some r
    → Memᴰ r rs × (r.method ≡ m)
unfolding first_route
first_route-found [] m p r e = absurd (ground arith)
first_route-found (x ∷ rs) m p r e = elim (Bool-cases (matches m p x)) [
  | inl fits ↦
      let q = some_route (rw fits at e) in
      (Memᴰ.head q, subst (λ (y : Route). y.method ≡ m) (sym q) (matches-method m p x fits))
  | inr not_fits ↦ let (a, b) = first_route-found rs m p r (rw not_fits at e) in (Memᴰ.tail a, b)
]

first_route-IsChoice : IsChoice first_route
first_route-IsChoice = record {
  registered = λ rs m p r e. (first_route-found rs m p r e).0;
  method = λ rs m p r e. (first_route-found rs m p r e).1;
}

at_path :
    (r x : Route)
    → first_route routes x.method x.path ≡ some x
    → r ≡ x
    → first_route routes r.method r.path ≡ some r
at_path r x h e = subst (λ (y : Route). first_route routes y.method y.path ≡ some y) (sym e) h

first_route-FindsPath : FindsPath first_route
unfolding first_route routes
first_route-FindsPath r (Memᴰ.head e) = at_path r _ refl e
first_route-FindsPath r (Memᴰ.tail (Memᴰ.head e)) = at_path r _ refl e
first_route-FindsPath r (Memᴰ.tail (Memᴰ.tail (Memᴰ.head e))) = at_path r _ refl e
first_route-FindsPath r (Memᴰ.tail (Memᴰ.tail (Memᴰ.tail (Memᴰ.head e)))) = at_path r _ refl e
first_route-FindsPath r (Memᴰ.tail (Memᴰ.tail (Memᴰ.tail (Memᴰ.tail (Memᴰ.head e))))) =
    at_path r _ refl e
first_route-FindsPath r (Memᴰ.tail (Memᴰ.tail (Memᴰ.tail (Memᴰ.tail (Memᴰ.tail none_left))))) =
    elim none_left [ ]

abbrev search_params : SearchParams
search_params name value = name ++ b'=' ∷ value

keeps_plain : KeepsPlain search_params
keeps_plain name value h k = refl

serve-onclick_example :
    serve [] fixed first_route (onclick search_params auto_button (pos 9) (pos 9)) ui
    ≡ record ui { match_controller = asked_for auto_button (pos 9) ui.match_controller }
serve-onclick_example =
    serve-onclick [] fixed first_route search_params auto_button (pos 9) (pos 9) ui
      first_route-FindsPath keeps_plain

abbrev asks : Request
asks = record { method = get; path = codes "/healthz"; body = []; now = pos 9; now_match = pos 9 }

abbrev sets : Request
sets = record {
  method = post;
  path = codes "/api/control";
  body = codes "alliance=7";
  now = pos 9;
  now_match = pos 9;
}

serve_all-Bounded_example :
    Bounded [] fixed first_route (serve_all [] fixed first_route (sets ∷ asks ∷ []) ui)
unfolding match_controller fresh
serve_all-Bounded_example =
    serve_all-Bounded [] fixed first_route (sets ∷ asks ∷ []) ui
      (record { low = omega arith; high = omega arith })

serve-get_example :
    ((serve [] fixed first_route asks ui).match_controller ≡ ui.match_controller)
    × ((serve [] fixed first_route asks ui).smartio ≡ [])
serve-get_example = serve-get [] fixed first_route asks ui first_route-IsChoice refl

handle_set_control-nearest_example :
    handle_set_control (alliance_key ++ equals_sign ∷ decimal_ℤ (pos 7)) fresh
    ≡ record fresh { alliance = nearest (pos 7) }
handle_set_control-nearest_example = handle_set_control-nearest (pos 7) fresh (omega arith)

abbrev one_second : Second
one_second = record { recorded = pos 20000 ∷ pos 20100 ∷ []; now = pos 1000000000 }

run-reports_example :
    run (one_second ∷ []) (diagnostics_publisher (pos 0)) new_tracker
    ≡ reports (pos 0) (pos 0) [] (one_second ∷ [])
unfolding diagnostics_publisher
run-reports_example =
    run-reports (one_second ∷ []) (diagnostics_publisher (pos 0)) [] new_tracker new_tracker-Tracks
      (omega arith)

notify-path_example :
    (r : Reaches ready (notify (some (codes "/a")) true ready)) × (up_to_nul r.datagram.sun_path
      ≡ codes "/a")
notify-path_example = notify-path ready 47 (97 ∷ []) refl (refl, (refl, tt))

notify-abstract_example :
    (r : Reaches watchdog (notify (some (codes "@a")) true watchdog)) × (drop 1 r.datagram.sun_path
      ≢ codes "a")
notify-abstract_example = notify-abstract watchdog (codes "a") (omega arith)
