-- ===== src/Audio/Session.antt =====
-- What happens to the interface: calls of the user, and events of the service.
use linux_learning_by_doing.Prelude.{ℕ, Bool, true, false, List, [], ◌∷◌, ℤ}
use linux_learning_by_doing.Audio.{
  Attribute, treble, mid, bass, balance, fade, avc_mode, Event, changed, Listener, str_treble,
  str_midrange, str_bass, str_balance, str_fade, str_scv, number, Interface, resource_update, init,
  on_controls_status, on_settings_status, send_set, send_request_information_source,
  send_set_entertainment_source, on_ent_source_list, on_active_audio_source,
}

-- An event with what it carries.
pub data Notice : Type 0 where
  controls_status settings_status : Bool → Notice
  ent_source_list : List (ℕ × ℕ) → Notice
  active_audio_source : ℕ → Notice
  changed_to : Attribute → ℤ → Notice

pub data Input : Type 0 where
  notice : Notice → Input
  set : Attribute → ℤ → Input
  request_information set_entertainment : Input

abbrev pub same_attribute : Attribute → Attribute → Bool
same_attribute treble treble = true
same_attribute mid mid = true
same_attribute bass bass = true
same_attribute balance balance = true
same_attribute fade fade = true
same_attribute avc_mode avc_mode = true
same_attribute _ _ = false

-- Whether the notice is one of the event.
abbrev pub is_for : Notice → Event → Bool
is_for (controls_status _) Event.controls_status = true
is_for (settings_status _) Event.settings_status = true
is_for (ent_source_list _) Event.ent_source_list = true
is_for (active_audio_source _) Event.active_audio_source = true
is_for (changed_to a _) (changed b) = same_attribute a b
is_for _ _ = false

-- A listener called with a notice, as `std::bind` passes it on.
unfoldable pub call : Listener → Notice → Interface → Interface
call Listener.status_event_listener_audio_control (controls_status b) s = on_controls_status b s
call Listener.status_event_listener_audio_settings (settings_status b) s = on_settings_status b s
call Listener.receive_ent_source_list (ent_source_list l) s = on_ent_source_list l s
call Listener.receive_active_audio_source (active_audio_source i) s = on_active_audio_source i s
call Listener.receive_treble (changed_to _ v) s = resource_update str_treble (number v) s
call Listener.receive_midrange (changed_to _ v) s = resource_update str_midrange (number v) s
call Listener.receive_bass (changed_to _ v) s = resource_update str_bass (number v) s
call Listener.receive_balance (changed_to _ v) s = resource_update str_balance (number v) s
call Listener.receive_fade (changed_to _ v) s = resource_update str_fade (number v) s
call Listener.receive_scv (changed_to _ v) s = resource_update str_scv (number v) s
call _ _ s = s

-- An event calls each listener that has been subscribed to it once, in the order of subscription.
unfoldable pub notify : List (Event × Listener) → Notice → Interface → Interface
notify [] n s = s
notify ((e, l) ∷ ls) n s = notify ls n (elim (is_for n e) [ true ↦ call l n s | false ↦ s ])

unfoldable pub step : Input → Interface → Interface
step (notice n) s = notify s.listeners n s
step (set a v) s = send_set a v s
step request_information s = send_request_information_source s
step set_entertainment s = send_set_entertainment_source s

unfoldable pub run : List Input → Interface → Interface
run [] s = s
run (i ∷ is) s = run is (step i s)

abbrev pub nothing : Interface
nothing = record {
  controls_proxy = false;
  settings_proxy = false;
  controls_available = false;
  settings_available = false;
  listeners = [];
  requests = [];
  updates = [];
}

-- After the constructor, whose flags are indeterminate until here, and `Init`.
abbrev pub started : Bool → Bool → Interface
started controls settings = init controls settings nothing
