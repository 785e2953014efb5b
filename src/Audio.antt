-- ===== src/Audio.antt =====
-- SampleCallBack/SourceInterface.cpp: the class between a user interface and the audio service, which calls
-- back through subscribed events.
pub mod Session
pub mod Runs
pub mod Sources
mod Tests
use linux_learning_by_doing.Prelude.{
  ℕ, ◌==◌, Bool, true, false, Option, none, some, List, [], ◌∷◌, ◌++◌, if◌then◌else◌, ℤ,
}

-- The attributes of the settings proxy
pub data Attribute : Type 0 where
  treble mid bass balance fade avc_mode : Attribute

-- The events that a proxy offers
pub data Event : Type 0 where
  controls_status ent_source_list active_audio_source settings_status : Event
  changed : Attribute → Event

-- The member functions that are subscribed to them
pub data Listener : Type 0 where
  status_event_listener_audio_control status_event_listener_audio_settings : Listener
  receive_ent_source_list receive_active_audio_source : Listener
  receive_treble receive_midrange receive_bass receive_balance receive_fade receive_scv : Listener

-- `audioPresCtrlTypes::eEntertainmentSrcs`, the two that are asked for
pub data Source : Type 0 where
  src_usb1 src_audio_aux : Source

-- The asynchronous calls on the proxies
pub data Request : Type 0 where
  set_value : Attribute → ℤ → Request
  get_active_ent_src : Request
  set_entertainment_src : Source → Request

-- The names that `ResourceUpdate` is called with
pub data Property : Type 0 where
  str_activeaudiosource str_entsourcelist : Property
  str_treble str_midrange str_bass str_balance str_fade str_scv : Property

-- A `QVariant`: a number, or a `QVariantMap` from the numbers that its keys spell.
pub data Value : Type 0 where
  number : ℤ → Value
  entries : (ℕ → Option ℕ) → Value

abbrev pub no_entries : ℕ → Option ℕ
no_entries = λ k. none

-- The members: whether each proxy is there, the availability flags, and, in order, what has been
-- subscribed, what has been asked of the service, and what has been emitted.
pub record Interface : Type 0 where
  pub controls_proxy : Bool
  pub settings_proxy : Bool
  pub controls_available : Bool
  pub settings_available : Bool
  pub listeners : List (Event × Listener)
  pub requests : List Request
  pub updates : List (Property × Value)

abbrev pub subscribe : Event → Listener → Interface → Interface
subscribe e l s = record s { listeners = s.listeners ++ ((e, l) ∷ []) }

abbrev pub ask : Request → Interface → Interface
ask r s = record s { requests = s.requests ++ (r ∷ []) }

abbrev pub resource_update : Property → Value → Interface → Interface
resource_update p v s = record s { updates = s.updates ++ ((p, v) ∷ []) }

-- `Init`, with whether `buildProxy` gives each proxy; without CONNECT_SERVICES it gives none.
unfoldable pub init : Bool → Bool → Interface → Interface
init controls settings s =
    let s1 = record s { controls_available = false; controls_proxy = controls } in
    let s2 =
      if controls
      then subscribe Event.active_audio_source Listener.receive_active_audio_source (
          subscribe Event.ent_source_list Listener.receive_ent_source_list
            (subscribe Event.controls_status Listener.status_event_listener_audio_control s1))
      else s1 in
    let s3 = record s2 { settings_available = false; settings_proxy = settings } in
    if settings
    then subscribe Event.settings_status Listener.status_event_listener_audio_settings s3
    else s3

-- The listeners; the first argument is whether the status is AVAILABLE.
unfoldable pub on_controls_status : Bool → Interface → Interface
on_controls_status available s = record s { controls_available = available }

unfoldable pub on_settings_status : Bool → Interface → Interface
on_settings_status available s =
    let s1 = record s { settings_available = available } in
    if available
    then (if s.settings_proxy
        then subscribe (changed avc_mode) Listener.receive_scv (
            subscribe (changed fade) Listener.receive_fade (
              subscribe (changed balance) Listener.receive_balance (
                subscribe (changed bass) Listener.receive_bass (
                  subscribe (changed mid) Listener.receive_midrange
                    (subscribe (changed treble) Listener.receive_treble s1)))))
        else s1)
    else s1

-- `SendSetBass` to `SendsetSCV`
unfoldable pub send_set : Attribute → ℤ → Interface → Interface
send_set a data_ s = if s.settings_proxy then ask (set_value a data_) s else s

unfoldable pub send_request_information_source : Interface → Interface
send_request_information_source s =
    if s.controls_proxy
    then ask (set_entertainment_src Source.src_usb1) (ask get_active_ent_src s)
    else s

unfoldable pub send_set_entertainment_source : Interface → Interface
send_set_entertainment_source s =
    if s.controls_proxy then ask (set_entertainment_src Source.src_audio_aux) s else s

-- `data[QString::number(it->first)] = QVariant(it->second)` over the list in its order of iteration.
unfoldable pub collect : List (ℕ × ℕ) → (ℕ → Option ℕ) → ℕ → Option ℕ
collect [] data_ = data_
collect ((k, v) ∷ source_list) data_ = collect source_list (λ j. if k == j then some v else data_ j)

unfoldable pub on_ent_source_list : List (ℕ × ℕ) → Interface → Interface
on_ent_source_list source_list s =
    resource_update str_entsourcelist (entries (collect source_list no_entries)) s

-- `ReceiveActiveAudioSource` puts nothing into its map.
unfoldable pub on_active_audio_source : ℕ → Interface → Interface
on_active_audio_source source_id s = resource_update str_activeaudiosource (entries no_entries) s
