-- ===== src/Pwa.antt =====
-- frontend/components/PwaRegister.tsx: what the browser tells the page about installing, updating and
-- being offline, and which banners are shown. The prompt to install is a number; the socket service
-- that listens for `nullkey:resume` is part of the state. A handler that waits for the user is two
-- events, the click and the answer.
pub mod Banners
use null_key.Base.{
  ℕ, suc, ◌-◌, ◌+◌, Bool, true, false, ◌&&◌, ◌||◌, not, List, [], ◌∷◌, ◌++◌, Option, none, some,
  ◌==◌, if◌then◌else◌,
}
use null_key.SocketService.{SocketService, resume_event}

-- The service worker's registration.
pub record Registration : Type 0 where
  pub waiting : Bool
  pub installing : Bool

-- `choices` counts the prompts that the user has not answered, `prompted` are those that asked, `watched` says whether a new worker's
-- changes are listened to; `updates`, `skips` and `reloads` count the calls of the browser.
pub record Pwa : Type 0 where
  pub installable : Bool
  pub update_ready : Bool
  pub offline : Bool
  pub deferred_prompt : Option ℕ
  pub registration : Option Registration
  pub watched : Bool
  pub choices : ℕ
  pub prompted : List ℕ
  pub updates : ℕ
  pub skips : ℕ
  pub reloads : ℕ
  pub service : SocketService

unfoldable pub new_pwa : SocketService → Pwa
new_pwa service = record {
  installable = false;
  update_ready = false;
  offline = false;
  deferred_prompt = none;
  registration = none;
  watched = false;
  choices = 0;
  prompted = [];
  updates = 0;
  skips = 0;
  reloads = 0;
  service = service;
}

unfoldable pub before_install_prompt : ℕ → Pwa → Pwa
before_install_prompt e p = record p { installable = true; deferred_prompt = some e }

unfoldable pub app_installed : Pwa → Pwa
app_installed p = record p { installable = false; deferred_prompt = none }

unfoldable pub set_offline : Bool → Pwa → Pwa
set_offline offline p = record p { offline = offline }

-- `register` resolves, or fails with none.
unfoldable pub registered : Option Registration → Pwa → Pwa
registered none p = p
registered (some r) p =
    let q = record p { registration = some r } in
    if r.waiting then record q { update_ready = true } else q

-- The browser moves the workers of the registration.
unfoldable pub registration_changed : Registration → Pwa → Pwa
registration_changed r p = elim p.registration [
  | none ↦ p
  | some _ ↦ record p { registration = some r }
]

-- `updatefound`, with the registration as it is then.
unfoldable pub update_found : Registration → Pwa → Pwa
update_found r p = elim p.registration [
  | none ↦ p
  | some _ ↦
      let q = record p { registration = some r } in
      if r.installing then record q { watched = true } else q
]

-- `statechange` of a new worker: whether it is installed, and whether a worker controls the page.
unfoldable pub state_changed : Bool → Bool → Pwa → Pwa
state_changed installed controlled p =
    if p.watched && (installed && controlled) then record p { update_ready = true } else p

unfoldable pub on_visibility : Bool → Pwa → Pwa
on_visibility visible p =
    if not visible
    then p
    else (let q : Pwa = elim p.registration [
      | none ↦ p
      | some _ ↦ record p { updates = suc p.updates }
    ] in
        record q { service = resume_event q.service })

unfoldable pub on_page_show : Bool → Bool → Pwa → Pwa
on_page_show persisted visible p = if persisted then on_visibility visible p else p

unfoldable pub was_asked : ℕ → List ℕ → Bool
was_asked e [] = false
was_asked e (k ∷ ks) = k == e || was_asked e ks

-- A prompt asks the user once; `prompt` of one that has asked is refused, and its `userChoice` is the
-- choice that was made.
unfoldable pub handle_install : Pwa → Pwa
handle_install p = elim p.deferred_prompt [
  | none ↦ p
  | some e ↦
      if was_asked e p.prompted
      then p
      else record p { prompted = p.prompted ++ e ∷ []; choices = suc p.choices }
]

-- The user answers a prompt.
unfoldable pub user_choice : Bool → Pwa → Pwa
user_choice accepted p =
    if p.choices == 0
    then p
    else (let q = record p { choices = p.choices - 1 } in
        if accepted then record q { installable = false; deferred_prompt = none } else q)

unfoldable pub handle_update : Pwa → Pwa
handle_update p = elim p.registration [
  | none ↦ p
  | some r ↦ if r.waiting then record p { skips = suc p.skips; reloads = suc p.reloads } else p
]

unfoldable pub shows_update : Pwa → Bool
shows_update p = not p.installable && p.update_ready

unfoldable pub shows_install : Pwa → Bool
shows_install p = p.installable

unfoldable pub shows_offline : Pwa → Bool
shows_offline p = p.offline

pub data PwaEvent : Type 0 where
  prompts : ℕ → PwaEvent
  installs clicks_install clicks_update : PwaEvent
  goes_offline answers shows : Bool → PwaEvent
  registers : Option Registration → PwaEvent
  finds moves : Registration → PwaEvent
  changes page_shows : Bool → Bool → PwaEvent

unfoldable pub react_pwa : PwaEvent → Pwa → Pwa
react_pwa (prompts e) p = before_install_prompt e p
react_pwa installs p = app_installed p
react_pwa clicks_install p = handle_install p
react_pwa clicks_update p = handle_update p
react_pwa (goes_offline offline) p = set_offline offline p
react_pwa (answers accepted) p = user_choice accepted p
react_pwa (shows visible) p = on_visibility visible p
react_pwa (registers r) p = registered r p
react_pwa (finds r) p = update_found r p
react_pwa (moves r) p = registration_changed r p
react_pwa (changes installed controlled) p = state_changed installed controlled p
react_pwa (page_shows persisted visible) p = on_page_show persisted visible p

unfoldable pub react_all_pwa : List PwaEvent → Pwa → Pwa
react_all_pwa [] p = p
react_all_pwa (e ∷ es) p = react_all_pwa es (react_pwa e p)
