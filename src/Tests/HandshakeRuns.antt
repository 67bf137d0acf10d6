-- ===== src/Tests/HandshakeRuns.antt =====
-- Runs of the handshake's protocol, and the theorems about it at concrete inputs.
use docker.Base.{◌≡◌, ◌≤◌, refl, pos, true, false, [], inl, inr, ◌∷◌}
use docker.User.{user_namespace_prepare_mappings, user_namespace_init}
use docker.User.Protocol.{ParentState, ChildState, parent_next, child_next, unshare, switch}
use docker.User.Protocol.Parent.{ParentRun, user_namespace_prepare_mappings-ParentRun}
use docker.User.Protocol.Child.{ChildRun, user_namespace_init-ChildRun}
use docker.User.Protocol.System.{
  System, Reach, start, later, parent_maps, parent_sends, parent_receives, child_moves, child_sends,
  child_receives,
}
use docker.User.Protocol.Safety.{Moves, entered_is_mapped, handshake_progress, handshake_ends}
use docker.Tests.Kernels.{generous}

abbrev finished : System
finished = record {
  parent = ParentState.granted;
  child = ChildState.entered;
  up = [];
  down = [];
  mapped = true;
}

abbrev granted : System
granted = record {
  parent = ParentState.granted;
  child = ChildState.waiting;
  up = [];
  down = 0 ∷ [];
  mapped = true;
}

-- The parent has granted, and its answer is on its way.
to_granted : Reach false 5 granted
unfolding parent_next child_next
to_granted =
    later
      (later
        (later
          (later
            (later start
              (child_moves (unshare true) true ChildState.announcing (inl refl) refl refl))
            (child_sends (pos 0) true ChildState.waiting refl refl))
          (parent_receives 0 [] ParentState.mapping refl refl refl))
        (parent_maps true ParentState.granting refl refl))
      (parent_sends (pos 0) true ParentState.granted refl refl)

to_finished : Reach false 7 finished
unfolding parent_next child_next
to_finished =
    later (later to_granted (child_receives 0 [] ChildState.switching refl refl refl))
      (child_moves (switch true) true ChildState.entered (inr refl) refl refl)

entered_is_mapped_example : (finished.mapped ≡ true) × (finished.parent ≡ ParentState.granted)
entered_is_mapped_example = entered_is_mapped to_finished refl

handshake_progress_example : Moves granted
handshake_progress_example = handshake_progress to_granted

handshake_ends_example : ◌≤◌ 7 7
handshake_ends_example = handshake_ends to_finished

user_namespace_prepare_mappings-ParentRun_example :
    ParentRun
      (pos 42)
      (pos 5)
      generous
      []
      (user_namespace_prepare_mappings (pos 42) (pos 5) generous [])
user_namespace_prepare_mappings-ParentRun_example =
    user_namespace_prepare_mappings-ParentRun (pos 42) (pos 5) generous []

user_namespace_init-ChildRun_example :
    ChildRun 0 (pos 6) generous [] (user_namespace_init 0 (pos 6) generous [])
user_namespace_init-ChildRun_example = user_namespace_init-ChildRun 0 (pos 6) generous []
