-- ===== src/Programmer/Feed/Taken.antt =====
-- What the server does with the frames of a request, one by one.
use virtual_automotive_ota_d.Prelude.{
  ◌≡◌, refl, ◌∙◌, true, Option, none, some, List, [], ◌∷◌, ◌++◌, append-nil, Bytes, ap, Exception,
  ok,
}
use virtual_automotive_ota_d.IsoTp.Frames.{CanMessage, wrap_frame, build_flow_control}
use virtual_automotive_ota_d.IsoTp.Receiver.{
  Reassembler, pop_flow_control_frame, flow_control_of, reset, receive_single_frame,
  receive_first_frame, receive_consecutive_frame,
}
use virtual_automotive_ota_d.IsoTp.Receiver
use virtual_automotive_ota_d.Programmer.State.{Env, Event}
use virtual_automotive_ota_d.Programmer.Server.{handle_uds}
use virtual_automotive_ota_d.Programmer.Feed.{
  Node, Fed, is_isotp_candidate, send_flow_control, handle_payload, feed, then_feed, fed_all,
  feed_frames,
}

-- A reassembler as the server makes it asks for no pauses, and no flow control of it waits to be sent.
pub record IsIdle (r : Reassembler) : Type 0 where
  pub nothing_pending : r.pending_flow_control ≡ none
  pub unpaced : r.block_size ≡ 0

-- The reassembler once the flow control is taken from it
abbrev pub popped : Reassembler → Reassembler
popped r = record r { pending_flow_control = none }

module _ (env : Env) (n : Node) (f : Bytes) where
  abbrev read : Option Bytes × Reassembler
  read = Receiver.feed n.reassembler f

  -- What a data frame does, where `o` is what it completes and `ms` the flow control sent
  abbrev pub taken : Option Bytes → List CanMessage → Fed
  taken o ms = record {
    accepted = true;
    node = record {
      programmer = (handle_payload env n.programmer o).state;
      reassembler = popped read.1;
    };
    flow_control = ms;
    events = (handle_payload env n.programmer o).events;
    raised = (handle_payload env n.programmer o).raised;
  }

  feed_lem :
      (ms : List CanMessage)
      → is_isotp_candidate f ≡ true
      → send_flow_control n.programmer.ecu_id read.1.pending_flow_control ≡ ok ms
      → feed env n f ≡ taken read.0 ms
  unfolding feed pop_flow_control_frame
  feed_lem ms c sent = rw (feed, c, sent)

  pub feed-silent :
      (o : Option Bytes)
      → is_isotp_candidate f ≡ true
      → read.0 ≡ o
      → read.1.pending_flow_control ≡ none
      → feed env n f ≡ taken o []
  unfolding send_flow_control
  feed-silent o c got none_waits =
      feed_lem [] c (ap (send_flow_control n.programmer.ecu_id) none_waits)
      ∙ ap (λ o. taken o []) got

  pub feed-answered :
      is_isotp_candidate f ≡ true
      → read.0 ≡ none
      → read.1.pending_flow_control ≡ some (flow_control_of n.reassembler)
      → feed env n f
        ≡ taken none (
            record { arbitration_id = n.programmer.ecu_id; content = flow_control_of n.reassembler }
            ∷ [])
  unfolding send_flow_control wrap_frame flow_control_of build_flow_control
  feed-answered c got waits =
      feed_lem _ c (ap (send_flow_control n.programmer.ecu_id) waits)
      ∙ ap
          (λ o. taken o (
            record { arbitration_id = n.programmer.ecu_id; content = flow_control_of n.reassembler }
            ∷ []))
          got

-- The request is handled once, when its last frame comes; `ms` is the flow control on the way.
pub record Requested (env : Env) (n : Node) (frames : List Bytes) (payload : Bytes)
    (ms : List CanMessage) : Type 0 where
  pub accepted : (feed_frames env n frames).accepted ≡ true
  pub state :
      (feed_frames env n frames).node.programmer ≡ (handle_uds env n.programmer payload).state
  pub events : (feed_frames env n frames).events ≡ (handle_uds env n.programmer payload).events
  pub raised : (feed_frames env n frames).raised ≡ (handle_uds env n.programmer payload).raised
  pub flow_control : (feed_frames env n frames).flow_control ≡ ms
  pub idle : IsIdle (feed_frames env n frames).node.reassembler

then_feed-fed_all :
    (o : Option Exception) (n : Node) (es : List Event)
    → then_feed
        (record { accepted = true; node = n; flow_control = []; events = es; raised = o })
        (fed_all n)
      ≡ record { accepted = true; node = n; flow_control = []; events = es; raised = o }
unfolding then_feed
then_feed-fed_all none n es = rw (append-nil es)
then_feed-fed_all (some e) n es = refl

pub feed_frames-step :
    (env : Env) (n : Node) (f : Bytes) (fs : List Bytes) (a : Fed)
    → feed env n f ≡ a
    → feed_frames env n (f ∷ fs) ≡ then_feed a (feed_frames env a.node fs)
unfolding feed_frames
feed_frames-step env n f fs a e = ap (λ a. then_feed a (feed_frames env a.node fs)) e

pub Requested-last :
    (env : Env) (n : Node) (f payload : Bytes)
    → is_isotp_candidate f ≡ true
    → (Receiver.feed n.reassembler f).0 ≡ some payload
    → IsIdle (Receiver.feed n.reassembler f).1
    → Requested env n (f ∷ []) payload []
unfolding feed_frames handle_payload
Requested-last env n f payload c got idle =
    let h = handle_uds env n.programmer payload in
    let a = taken env n f (some payload) [] in
    let e : feed_frames env n (f ∷ []) ≡ a =
      feed_frames-step env n f [] a (feed-silent env n f (some payload) c got idle.nothing_pending)
      ∙ then_feed-fed_all h.raised a.node h.events in
    record {
      accepted = rw e;
      state = rw e;
      events = rw e;
      raised = rw e;
      flow_control = rw e;
      idle = rw e (record { nothing_pending = refl; unpaced = idle.unpaced });
    }

-- A frame that completes nothing, before frames that complete the request.
pub Requested-more :
    (env : Env) (n : Node) (f : Bytes) (fs : List Bytes) (payload : Bytes) (ms ns : List CanMessage)
    → feed env n f ≡ taken env n f none ms
    → Requested env (taken env n f none ms).node fs payload ns
    → Requested env n (f ∷ fs) payload (ms ++ ns)
unfolding then_feed handle_payload
Requested-more env n f fs payload ms ns step later =
    let e = feed_frames-step env n f fs (taken env n f none ms) step in
    record {
      accepted = rw e later.accepted;
      state = rw e later.state;
      events = rw e later.events;
      raised = rw e later.raised;
      flow_control = rw e (ap (λ x. ms ++ x) later.flow_control);
      idle = rw e later.idle;
    }
