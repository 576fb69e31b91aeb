-- ===== src/HttpServer/Hub/Panic.antt =====
-- `WriteMessage`: the send on a channel that `handleCmd` closed after it was loaded.
use teltonika.Prelude.{ℕ, ◌≡◌, refl, ap, Option, none, update_same}
use teltonika.Packet.{Message}
use teltonika.IoElements.{Text}
use teltonika.IoElements.Lookup.{same_text_refl}
use teltonika.HttpServer.{gateway_timeout}
use teltonika.HttpServer.Hub.{
  store_channel, carrying, panicked, sending, awaiting, Channel, Hub, init, takes, sends, times_out,
  deletes, closes, loads, panics, Reach, start, later,
}

module _ (imei_of tracker_of : ℕ → Text) where
  loaded :
      (h c : ℕ) (m : Option Message)
      → tracker_of c ≡ imei_of h
      → (s : Hub) × Reach imei_of tracker_of s
        × (s.request h ≡ awaiting)
        × (s.caller c ≡ carrying m h)
  unfolding init store_channel
  loaded h c m same =
      let r₁ = later start (takes h refl refl) in
      let r₂ = later r₁ (sends h (update_same h sending init.request)) in
      let r₃ = later r₂ (loads c h m refl (rw (same, same_text_refl (imei_of h)) refl)) in
      (_, r₃, update_same h awaiting _, update_same c (carrying m h) init.caller)

  -- For any request and any call of `WriteMessage` or `ClientDisconnected` for the same IMEI, a
  -- state is reachable in which the call panicked: it loads the channel, the request times out,
  -- deletes and closes it, and the call sends on the closed channel.
  pub Reach-panicked :
      (h c : ℕ) (m : Option Message)
      → tracker_of c ≡ imei_of h
      → (s : Hub) × Reach imei_of tracker_of s × (s.caller c ≡ panicked)
  Reach-panicked h c m same =
      let (s, r, e, f) = loaded h c m same in
      let r₁ = later r (times_out h e) in
      let r₂ = later r₁ (deletes h gateway_timeout none (update_same h _ s.request)) in
      let r₃ = later r₂ (closes h gateway_timeout none (update_same h _ _)) in
      let r₄ =
        later r₃ (panics c h m f (ap (λ (ch : Channel). ch.closed) (update_same h _ s.channel))) in
      (_, r₄, update_same c panicked s.caller)
