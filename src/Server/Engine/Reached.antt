-- ===== src/Server/Engine/Reached.antt =====
-- Which clients a command reaches.
use indi_engine.Base.{
  ℕ, String, false, ◌||◌, Option, none, some, ◌≡◌, ◌≢◌, refl, ap, ◌∙◌, arith, branches,
}
use mathlib.Core.List.{append-nil}
use indi_engine.Base.Dict.{Dict}
use indi_engine.Base.Numbers.{◌==◌ as nat_eq}
use indi_engine.Base.Result.{Result}
use indi_engine.IndiServer.{Manager}
use indi_engine.Protocol.Client.{Client}
use indi_engine.Protocol.Runtime.{Runtime}
use indi_engine.Server.Delivery.{packets_to, put-lookup}
use indi_engine.Server.Engine.{Command, Reply, World, Engine, says, send_to}
use indi_engine.Server.Engine.Devices.{
  handle_device_control, handle_subscription, handle_capability_request, handle_engine_list_request,
  send_current_state, ack,
}
use indi_engine.Server.Engine.Devices
use indi_engine.Server.Engine.Dispatch.{handle_command}
use indi_engine.Server.Engine.Images.{handle_frame_control, in_store}
use indi_engine.Server.Engine.New.{handle_new}
use indi_engine.Server.Engine.Sent.{
  send_to-packets, send_to-connections, send_current_state-packets, send_current_state-connections,
}
use indi_engine.Server.Hub.{
  Packet, Hub, Subscriptions, subscriptions_of, subscribe, unsubscribe, change_subscriptions,
  subscribe_to, unsubscribe_from,
}
use indi_engine.Transport.Bytes.{Bytes}

module _ {py : Runtime} {Params : Type 0} where
  -- What was sent to a connection and its subscriptions are as before.
  pub record Leaves (k : ℕ) (h h' : Hub (Reply py Params)) : Type 0 where
    pub packets : packets_to k h'.sent ≡ packets_to k h.sent
    pub table : subscriptions_of k h'.connections ≡ subscriptions_of k h.connections

  hub-Leaves : (k : ℕ) (h : Hub (Reply py Params)) → Leaves k h h
  hub-Leaves k h = record { packets = refl; table = refl }

  send_to-Leaves :
      (w : World py Params) (conn k : ℕ) (msg : Packet (Reply py Params))
      (h : Hub (Reply py Params))
      → nat_eq conn k ≡ false
      → Leaves k h (send_to w conn msg h)
  send_to-Leaves w conn k msg h other = record {
    packets = send_to-packets w conn k msg h ∙ rw other (append-nil (packets_to k h.sent));
    table = ap (subscriptions_of k) (send_to-connections w conn msg h).0;
  }

  send_current_state-Leaves :
      (w : World py Params) (conn k : ℕ) (device : Option String) (c : Option (Client py))
      (h : Hub (Reply py Params))
      → nat_eq conn k ≡ false
      → Leaves k h (send_current_state w conn device c h)
  send_current_state-Leaves w conn k device c h other = record {
    packets =
        send_current_state-packets w conn k device c h
        ∙ rw other (append-nil (packets_to k h.sent));
    table = ap (subscriptions_of k) (send_current_state-connections w conn device c h);
  }

  change_subscriptions-Leaves :
      (conn k : ℕ) (change : Subscriptions → Subscriptions) (o : Option Subscriptions)
      (h : Hub (Reply py Params))
      → nat_eq conn k ≡ false
      → Leaves k h (change_subscriptions conn change o h)
  change_subscriptions-Leaves conn k change none h other = hub-Leaves k h
  change_subscriptions-Leaves conn k change (some subs) h other = record {
    packets = refl;
    table = put-lookup conn k (change subs) h.connections ∙ rw other refl;
  }

  hub-Leaves-hub :
      {k : ℕ} {h h₁ h₂ : Hub (Reply py Params)} → Leaves k h h₁ → Leaves k h₁ h₂ → Leaves k h h₂
  hub-Leaves-hub first second = record {
    packets = second.packets ∙ first.packets;
    table = second.table ∙ first.table;
  }

  subscription-Leaves :
      (w : World py Params) (cmd : Command Params) (conn k : ℕ) (c : Option (Client py))
      (o : Option Subscriptions) (h : Hub (Reply py Params))
      → nat_eq conn k ≡ false
      → Leaves k h (Devices.subscription w cmd conn c o h)
  unfolding subscribe unsubscribe
  subscription-Leaves w cmd conn k c none h other = hub-Leaves k h
  subscription-Leaves w cmd conn k c (some subs) h other =
      branches (Leaves k h) (says cmd.type "subscribe") _ _
        (hub-Leaves-hub
          (change_subscriptions-Leaves conn k (subscribe_to cmd.device)
            (subscriptions_of conn h.connections) h other)
          (hub-Leaves-hub
            (send_to-Leaves w conn k (ack cmd.device Reply.subscribe_ack)
              (subscribe conn cmd.device h) other)
            (send_current_state-Leaves w conn k cmd.device c
              (send_to w conn (ack cmd.device Reply.subscribe_ack) (subscribe conn cmd.device h))
              other)))
        (hub-Leaves-hub
          (change_subscriptions-Leaves conn k (unsubscribe_from cmd.device)
            (subscriptions_of conn h.connections) h other)
          (send_to-Leaves w conn k (ack cmd.device Reply.unsubscribe_ack)
            (unsubscribe conn cmd.device h) other))

module _ {py : Runtime} {M : Manager} {Params : Type 0} where
  in_store-Leaves :
      (w : World py Params) (cmd : Command Params) (conn k : ℕ) (files : Option (Dict Bytes))
      (e : Engine py M Params)
      → nat_eq conn k ≡ false
      → Leaves k e.hub (in_store w cmd conn files e).hub
  in_store-Leaves w cmd conn k none e other = send_to-Leaves w conn k _ e.hub other
  in_store-Leaves w cmd conn k (some files) e other = send_to-Leaves w conn k _ e.hub other

  -- A command that controls neither the INDI server nor scripts sends nothing to other clients than the one
  -- that gives it, and leaves their subscriptions.
  pub handle_command-Leaves :
      (w : World py Params) (cmd : Command Params) (conn k : ℕ) (e : Engine py M Params)
      → conn ≢ k
      → says cmd.type "server_control" ≡ false
      → says cmd.type "script_control" ≡ false
      → Leaves k e.hub (handle_command w cmd conn e).1.hub
  unfolding handle_command handle_device_control handle_subscription handle_capability_request
      handle_engine_list_request handle_frame_control handle_new
  handle_command-Leaves w cmd conn k e apart no_server no_script =
      let other : nat_eq conn k ≡ false = ground (arith, apart) in
      let P : Result (Unit {0}) × Engine py M Params → Type 0 = λ r. Leaves k e.hub r.1.hub in
      rw (no_server, no_script)
        (branches P (says cmd.type "device_control") _ _ (send_to-Leaves w conn k _ e.hub other) (
          branches P (says cmd.type "subscribe" || says cmd.type "unsubscribe") _ _
            (subscription-Leaves w cmd conn k e.client (subscriptions_of conn e.hub.connections)
              e.hub other)
            (branches P (says cmd.type "capability_request") _ _
              (send_to-Leaves w conn k _ e.hub other)
              (branches P (says cmd.type "engine_list_request") _ _
                (send_to-Leaves w conn k _ e.hub other)
                (branches P (says cmd.type "frame_control") _ _
                  (in_store-Leaves w cmd conn k e.frames e other)
                  (branches P (says cmd.type "new") _ _ (hub-Leaves k e.hub)
                    (hub-Leaves k e.hub)))))))
