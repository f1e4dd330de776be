-- ===== src/Pwa/Banners.antt =====
-- What the banners promise.
use null_key.Base.{
  ℕ, suc, ◌≡◌, refl, Bool, true, false, ◌&&◌, ◌||◌, not, List, [], ◌∷◌, ◌++◌, Option, none, some,
  arith, Option-cases, Bool-cases, inl, inr, if◌then◌else◌,
}
use null_key.SocketService.{SocketService}
use null_key.Pwa.{
  Pwa, PwaEvent, prompts, installs, clicks_install, clicks_update, goes_offline, answers, shows,
  registers, finds, moves, changes, page_shows, new_pwa, before_install_prompt, app_installed,
  set_offline, registered, update_found, registration_changed, state_changed, on_visibility,
  on_page_show, handle_install, was_asked, user_choice, handle_update, shows_update, shows_install,
  react_pwa, react_all_pwa,
}

abbrev is_there : Option ℕ → Bool
is_there none = false
is_there (some e) = true

abbrev Fits : Pwa → Type 0
Fits p = p.installable ≡ is_there p.deferred_prompt

react-Fits : (e : PwaEvent) (p : Pwa) → Fits p → Fits (react_pwa e p)
unfolding react_pwa before_install_prompt app_installed set_offline registered registration_changed
    update_found state_changed on_visibility on_page_show handle_install user_choice handle_update
react-Fits (prompts e) p h = refl
react-Fits installs p h = refl
react-Fits clicks_install p h = ground (arith, h)
react-Fits clicks_update p h = ground (arith, h)
react-Fits (goes_offline offline) p h = h
react-Fits (answers accepted) p h = ground (arith, h)
react-Fits (shows visible) p h = ground (arith, h)
react-Fits (registers none) p h = h
react-Fits (registers (some r)) p h = ground (arith, h)
react-Fits (finds r) p h = ground (arith, h)
react-Fits (moves r) p h = ground (arith, h)
react-Fits (changes installed controlled) p h = ground (arith, h)
react-Fits (page_shows persisted visible) p h = ground (arith, h)

react_all_pwa-Fits : (es : List PwaEvent) (p : Pwa) → Fits p → Fits (react_all_pwa es p)
unfolding react_all_pwa
react_all_pwa-Fits [] p h = h
react_all_pwa-Fits (e ∷ es) p h = react_all_pwa-Fits es (react_pwa e p) (react-Fits e p h)

react-update_ready :
    (e : PwaEvent) (p : Pwa) → p.update_ready ≡ true → (react_pwa e p).update_ready ≡ true
unfolding react_pwa before_install_prompt app_installed set_offline registered registration_changed
    update_found state_changed on_visibility on_page_show handle_install user_choice handle_update
react-update_ready (prompts e) p h = h
react-update_ready installs p h = h
react-update_ready clicks_install p h = ground (arith, h)
react-update_ready clicks_update p h = ground (arith, h)
react-update_ready (goes_offline offline) p h = h
react-update_ready (answers accepted) p h = ground (arith, h)
react-update_ready (shows visible) p h = ground (arith, h)
react-update_ready (registers none) p h = h
react-update_ready (registers (some r)) p h = ground (arith, h)
react-update_ready (finds r) p h = ground (arith, h)
react-update_ready (moves r) p h = ground (arith, h)
react-update_ready (changes installed controlled) p h = ground (arith, h)
react-update_ready (page_shows persisted visible) p h = ground (arith, h)

react_all_pwa-update_ready :
    (es : List PwaEvent) (p : Pwa)
    → p.update_ready ≡ true
    → (react_all_pwa es p).update_ready ≡ true
unfolding react_all_pwa
react_all_pwa-update_ready [] p h = h
react_all_pwa-update_ready (e ∷ es) p h =
    react_all_pwa-update_ready es (react_pwa e p) (react-update_ready e p h)

-- The prompt that is kept has asked the user.
abbrev pub has_asked : Pwa → Bool
has_asked p = elim p.deferred_prompt [ none ↦ false | some e ↦ was_asked e p.prompted ]

was_asked-append : (e : ℕ) (ks : List ℕ) → was_asked e (ks ++ e ∷ []) ≡ true
unfolding was_asked
was_asked-append e [] = ground arith
was_asked-append e (k ∷ ks) = ground (arith, was_asked-append e ks)

-- The user clicks on Install and dismisses the prompt.
abbrev pub dismissed : List PwaEvent
dismissed = clicks_install ∷ answers false ∷ []

handle_install-dismissed :
    (p : Pwa)
    → let d = react_all_pwa dismissed p in
      (shows_install d ≡ shows_install p) × ((handle_install d).choices ≡ d.choices)
unfolding react_all_pwa react_pwa handle_install user_choice shows_install
handle_install-dismissed p = elim (Option-cases p.deferred_prompt) [
  | inl e ↦ ground (arith, e)
  | inr (n, e) ↦ ground (arith, e, was_asked-append n p.prompted)
]

-- After any events of the browser and the user, in any order: a click on Install asks the user exactly
-- when the banner to install is shown and its prompt has not asked before; if the user then clicks and
-- dismisses the prompt, the banner is shown as before, but a further click asks nothing; and once an
-- update is ready one of the two banners is shown, whatever happens then.
pub react_all_pwa-shows :
    (es es' : List PwaEvent) (service : SocketService)
    → let p = react_all_pwa es (new_pwa service) in
      let q = react_all_pwa es' p in
      let d = react_all_pwa dismissed p in
      ((handle_install p).choices
        ≡ (if shows_install p && not (has_asked p) then suc p.choices else p.choices))
      × (shows_install d ≡ shows_install p)
      × ((handle_install d).choices ≡ d.choices)
      × (p.update_ready && not (shows_install q || shows_update q) ≡ false)
unfolding handle_install shows_install shows_update new_pwa
react_all_pwa-shows es es' service =
    let p = react_all_pwa es (new_pwa service) in
    let fits : Fits p = react_all_pwa-Fits es (new_pwa service) refl in
    let (still, nothing) = handle_install-dismissed p in
    (
      elim (Option-cases p.deferred_prompt) [
        | inl e ↦ ground (arith, e, fits)
        | inr (n, e) ↦ ground (arith, e, fits)
      ],
      still,
      nothing,
      elim (Bool-cases p.update_ready) [
        | inl ready ↦ ground (arith, react_all_pwa-update_ready es' p ready)
        | inr n ↦ ground (arith, n)
      ],
    )
