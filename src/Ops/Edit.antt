-- ===== src/Ops/Edit.antt =====
-- crates/servicemanager-ops/src/edit.rs.
pub mod Outcome
use ngsm.Prelude.{
  Bool, true, false, not, ◌||◌, Option, none, some, List, ◌++◌, if◌then◌else◌, is_some, retain,
}
use ngsm.Text.{Text, text, text_eq, is_empty, trim, eq_ignore_case}
use ngsm.Result.{Result, ok, err}
use ngsm.Action.{Act, pure, fail, ◌>>=◌, ◌>>◌, from_result, or_else}
use ngsm.Core.Error.{Error, invalid_config, other, to_string}
use ngsm.Core.Model.{ManagedApplicationConfig, IoRedirectionConfig, IoStream}
use ngsm.Ops.Specs.{EditSpec, has_changes}
use ngsm.Ops.Backend.{ConfigBackend, io_stream}

unfoldable pub merge_stream_path : Option IoStream → Option Text → Option IoStream
merge_stream_path stream none = stream
merge_stream_path none (some path) = if is_empty path then none else some (io_stream path)
merge_stream_path (some s) (some path) =
    if is_empty path then none else some (record s { path = path })

abbrev pub is_cleared : Option Text → Bool
is_cleared none = false
is_cleared (some path) = is_empty path

-- The mark of a stream that is cleared goes with it.
unfoldable pub unmark : Option Text → Text → List Text → List Text
unmark path key marks =
    if is_cleared path then retain (λ marked. not (eq_ignore_case marked key)) marks else marks

abbrev pub or_keep : Option Text → Option Text → Option Text
or_keep none old = old
or_keep (some new) old = some new

abbrev pub is_blank : Option Text → Bool
is_blank none = false
is_blank (some v) = is_empty (trim v)

unfoldable pub merge_managed_fields :
    EditSpec → ManagedApplicationConfig → Result Error ManagedApplicationConfig
unfolding merge_stream_path unmark
merge_managed_fields spec managed =
    if is_blank spec.application
    then err (other (text "Application path must not be empty."))
    else ok (record managed {
      application = or_keep spec.application managed.application;
      app_parameters = or_keep spec.app_parameters managed.app_parameters;
      app_directory = or_keep spec.app_directory managed.app_directory;
      io = record {
        stdin = managed.io.stdin;
        stdout = merge_stream_path managed.io.stdout spec.stdout;
        stderr = merge_stream_path managed.io.stderr spec.stderr;
        timestamp_log = managed.io.timestamp_log;
      };
      expandable_strings =
          unmark spec.stderr (text "AppStderr")
            (unmark spec.stdout (text "AppStdout") managed.expandable_strings);
    })

unfoldable pub touches_managed : EditSpec → Bool
touches_managed s =
    is_some s.application
    || (is_some s.app_parameters
        || (is_some s.app_directory || (is_some s.stdout || is_some s.stderr)))

unfoldable pub touches_native : EditSpec → Bool
touches_native s =
    is_some s.display_name
    || (is_some s.description
        || (is_some s.start_type
            || (is_some s.dependencies || (is_some s.account || is_some s.password))))

abbrev pub phase_of : Bool → Text
phase_of true = text "native edit"
phase_of false = text "managed edit"

abbrev pub native_status : Bool → Text
native_status true =
    text
      "Native SCM fields (including account/password) were not rolled back; inspect native configuration for partial application."
native_status false = text "No native SCM changes were attempted."

abbrev pub restored_text : Result Error (Unit {0}) → Text
unfolding to_string
restored_text (ok _) = text "managed configuration restored"
restored_text (err rollback) =
    text "managed rollback also failed ("
    ++ (to_string rollback ++ text "); managed configuration may be partially applied")

module _ (b : ConfigBackend) where
  unfoldable pub rollback_managed :
      EditSpec → ManagedApplicationConfig → Bool → Error → b.World → Error × b.World
  rollback_managed spec original native_attempted error w =
      let (restored, w') = b.write_managed spec.name original w in
      (
        other (
            phase_of native_attempted
            ++ (text " failed ("
                ++ (to_string error
                    ++ (text "); "
                        ++ (restored_text restored
                            ++ (text ". " ++ native_status native_attempted)))))),
        w',
      )

  unfoldable pub edit_managed : EditSpec → ManagedApplicationConfig → Act b.World Error (Unit {0})
  unfolding rollback_managed
  edit_managed spec original =
      if touches_managed spec
      then (do
        managed ← from_result (merge_managed_fields spec original)
        from_result (b.validate_managed_config managed)
        or_else (b.write_managed spec.name managed) (rollback_managed spec original false))
      else pure tt

  -- The error of the native phase is passed on as it is when nothing is to be restored.
  unfoldable pub undo_native :
      EditSpec → ManagedApplicationConfig → Error → b.World → Error × b.World
  unfolding rollback_managed
  undo_native spec original error w =
      if touches_managed spec then rollback_managed spec original true error w else (error, w)

  unfoldable pub edit_native : EditSpec → ManagedApplicationConfig → Act b.World Error (Unit {0})
  unfolding undo_native
  edit_native spec original =
      if touches_native spec
      then or_else (b.update_native spec) (undo_native spec original)
      else pure tt

  unfoldable pub edit_found : EditSpec → Option ManagedApplicationConfig → Act b.World Error Text
  unfolding edit_managed edit_native
  edit_found spec none = fail (
      other
        (text "'" ++ (spec.name ++ text "' is not an NGSM-managed service — refusing to edit it")))
  edit_found spec (some original) = do
    edit_managed spec original
    edit_native spec original
    pure (text "Edited '" ++ (spec.name ++ text "'."))

  unfoldable pub edit_with_backend : EditSpec → Act b.World Error Text
  unfolding edit_found
  edit_with_backend spec =
      if has_changes spec
      then (do
        from_result (b.validate_native_update spec)
        b.lock_service_config spec.name
        found ← b.read_managed spec.name
        edit_found spec found)
      else fail (invalid_config (text "no edit fields specified"))
