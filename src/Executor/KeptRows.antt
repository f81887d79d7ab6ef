-- ===== src/Executor/KeptRows.antt =====
-- The calls of `_execute` in nawat/executor.py that leave the row of the run alone.
use nawat.Prelude.{List, [], ◌∷◌, ◌++◌, map, Option, none, some, if_ind}
use nawat.Prelude.Text.{Text, text}
use nawat.Errors.{Result, ok, err}
use nawat.Errors.Post.{Post, returned, raised, Post-▷}
use nawat.Keys.{Key}
use nawat.Keys
use nawat.Runs.{RunRecord, publish_prefix}
use nawat.Executor.World.{Plan, World, Parts}
use nawat.Executor.Planning.{
  discard_lineage, newest_of, find_newest, open_lineage, prepare_checkpoints, plan_lineage,
  plan_script, plan_with, plan,
}
use nawat.Executor.Outputs.{
  publish_classes, publish_outputs, publish_partial, replicate_reached, replicate_checkpoint,
  published_key, otherwise,
}
use nawat.Executor.Run.{Local, stage, take_lease}
use nawat.Executor.Rows.{At, on_rest-Post, reading-Post, lifted}

module _ {S : Type 0} (run_id : Text) (parts : Parts S) where
  otherwise-At :
      (old : List Text) (x : RunRecord) (m : World S × Result (List Text))
      → Post (λ a w'. At run_id x w') (At run_id x) m
      → Post (λ a w'. At run_id x w') (At run_id x) (otherwise parts old m)
  otherwise-At old x (w, ok a) (returned h) = returned h
  otherwise-At old x (w, err e) (raised h) = returned h

  published_key-At :
      (key : Key) (x : RunRecord) (m : World S × Result (Unit {0}))
      → Post (λ a w'. At run_id x w') (At run_id x) m
      → Post (λ a w'. At run_id x w') (At run_id x) (published_key parts key m)
  published_key-At key x (w, ok u) (returned h) = returned h
  published_key-At key x (w, err e) (raised h) = returned h

  publish_classes-At :
      (prefix : Text) (names published : List Text) (w : World S) (x : RunRecord)
      → At run_id x w
      → Post (λ a w'. At run_id x w') (At run_id x) (publish_classes parts prefix names published w)
  unfolding publish_classes
  publish_classes-At prefix [] published w x h = returned h
  publish_classes-At prefix (name ∷ rest) published w x h =
      Post-▷ _
        (reading-Post run_id (At run_id x) (Keys.parse (text "runs/" ++ prefix ++ b'/' ∷ name)) w h)
        λ key w₁ h₁.
          Post-▷ _ (on_rest-Post run_id (At run_id x) (parts.publish name key) w₁ h₁)
            λ u w₂ h₂. publish_classes-At prefix rest (published ++ Keys.str key ∷ []) w₂ x h₂

  pub publish_outputs-At :
      (prefix : Text) (p : Plan) (w : World S) (x : RunRecord)
      → At run_id x w
      → Post (λ a w'. At run_id x w') (At run_id x) (publish_outputs parts prefix p w)
  unfolding publish_outputs
  publish_outputs-At prefix p w x h =
      Post-▷ _ (on_rest-Post run_id (At run_id x) (parts.artifact_classes p) w h)
        λ names w₁ h₁. publish_classes-At prefix names [] w₁ x h₁

  pub publish_partial-At :
      (r : RunRecord) (p : Plan) (w : World S) (x : RunRecord)
      → At run_id x w
      → Post (λ a w'. At run_id x w') (At run_id x) (publish_partial parts r p w)
  unfolding publish_partial
  publish_partial-At r p w x h =
      otherwise-At (map Keys.str r.artifacts) x _ (publish_outputs-At (publish_prefix r) p w x h)

  pub replicate_reached-At :
      (r : RunRecord) (reached : Option Text) (w : World S) (x : RunRecord)
      → At run_id x w
      → Post (λ a w'. At run_id x w') (At run_id x) (replicate_reached parts r reached w)
  unfolding replicate_reached replicate_checkpoint
  replicate_reached-At r none w x h = returned h
  replicate_reached-At r (some path) w x h =
      if_ind (Post (λ a w'. At run_id x w') (At run_id x)) r.spec.checkpoints.publish
        (λ y.
          Post-▷ _
            (reading-Post run_id (At run_id x)
              (Keys.parse (text "runs/" ++ publish_prefix r ++ text "/checkpoint")) w h)
            λ key w₁ h₁.
              published_key-At key x _
                (on_rest-Post run_id (At run_id x) (parts.replicate path key) w₁ h₁))
        (λ y. returned h)

  open_lineage-At :
      (r : RunRecord) (directory : Text) (w : World S) (x : RunRecord)
      → At run_id x w
      → Post (λ a w'. At run_id x w') (At run_id x) (open_lineage parts r directory w)
  unfolding open_lineage discard_lineage find_newest
  open_lineage-At r directory w x h =
      Post-▷ (find_newest parts r directory)
        (on_rest-Post run_id (At run_id x) (parts.note_owner directory r)
          (discard_lineage parts r directory w)
          (if_ind (At run_id x) r.spec.checkpoints.resume (λ y. h) (λ y. h)))
        λ u w₁ h₁.
          Post-▷ (λ newest w₂. (w₂, ok (directory, newest)))
            (reading-Post run_id (At run_id x) (newest_of parts r directory w₁) w₁ h₁)
            λ newest w₂ h₂. returned h₂

  prepare_checkpoints-At :
      (r : RunRecord) (w : World S) (x : RunRecord)
      → At run_id x w
      → Post (λ a w'. At run_id x w') (At run_id x) (prepare_checkpoints parts r w)
  unfolding prepare_checkpoints
  prepare_checkpoints-At r w x h =
      Post-▷ (open_lineage parts r)
        (reading-Post run_id (At run_id x) (parts.lineage_dir r.spec) w h)
        λ directory w₁ h₁. open_lineage-At r directory w₁ x h₁

  pub plan-At :
      (r : RunRecord) (inputs : List (Key × Text)) (w : World S) (x : RunRecord)
      → At run_id x w
      → Post (λ a w'. At run_id x w') (At run_id x) (plan parts r inputs w)
  unfolding plan plan_script plan_lineage
  plan-At r inputs w x h =
      Post-▷ (plan_script parts r inputs)
        (reading-Post run_id (At run_id x) (parts.resolve_script r.spec.script w.rest) w h)
        λ script w₁ h₁.
          Post-▷ (plan_lineage parts r inputs script)
            (on_rest-Post run_id (At run_id x) (parts.make_output_dir r.id) w₁ h₁)
            λ out_dir w₂ h₂.
              Post-▷ (plan_with parts script out_dir inputs) (prepare_checkpoints-At r w₂ x h₂)
                λ c w₃ h₃. returned h₃

  pub stage-At :
      (i : Text) (keys : List Key) (inputs : List (Key × Text)) (l : Local S) (x : RunRecord)
      → At run_id x l.world
      → Post
          (λ a l'. At run_id x l'.world)
          (λ l'. At run_id x l'.world)
          (stage parts i keys inputs l)
  unfolding stage take_lease
  stage-At i [] inputs l x h = returned h
  stage-At i (key ∷ rest) inputs l x h =
      Post-▷ _ (lifted run_id l (on_rest-Post run_id (At run_id x) (parts.resolve key) l.world h))
        λ path l₁ h₁. stage-At i rest (inputs ++ (key, path) ∷ []) (take_lease parts i key l₁) x h₁
