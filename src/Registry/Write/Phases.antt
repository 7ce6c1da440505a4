-- ===== src/Registry/Write/Phases.antt =====
-- Phase 1 of a write, step by step: the marker first, and then what leaves it alone.
use ngsm.Prelude.{
  ℕ, ◌/◌, ◌%◌, ◌^◌, ◌≡◌, refl, sym, subst, Bool, true, false, ◌&&◌, Option, none, some, [], ◌∷◌,
  ◌++◌, &&-left, &&-right, all,
}
use ngsm.Text.{Text, text, text_eq, eq_ignore_case}
use ngsm.Text.Laws.{text_eq_refl}
use ngsm.Text.Utf16.{IsUnicode}
use ngsm.Result.{Result}
use ngsm.Action.{Act, ◌>>=◌, >>=-elim, >>=-after, from_result}
use ngsm.Core.Error.{Error}
use ngsm.Core.Model.{ManagedApplicationConfig, IoStream}
use ngsm.Registry.NssmKeys
use ngsm.Registry.Names.{stdio_attribute_names}
use ngsm.Registry.Names.Marker.{differs_from_marker}
use ngsm.Registry.Store.{RegistryApi}
use ngsm.Registry.Preflight.{is_blank}
use ngsm.Registry.Reading.{is_string_type}
use ngsm.Registry.Laws.{RegistryLaws}
use ngsm.Registry.SingleValue.Marked.{Marked, write_marker-Marked}
use ngsm.Registry.Write.{
  Written, registry_is_expandable, string_kind, write_config_string, put, put_string, put_u32,
  put_flag, put_bytes, write_io_stream, write_policies, write_rotation, write_streams,
  write_scalars,
}
use ngsm.Registry.Write.Scalars.{
  IsGood, Step, Step-bind, Step-pure, Calm-Marked, put-Step, write_u32-Calm,
  write_config_string-Calm, put_u32-Step, put_flag-Step, put_string-Step, put_multi-Step, ||-true,
}

module _ (api : RegistryApi) (laws : RegistryLaws api) (k : api.Key) where
  then_u32 :
      (name : Text) (v : Option ℕ) (g : Written → Act api.World Error Written)
      → differs_from_marker name ≡ true
      → Step api laws k g
      → Step api laws k (λ written. put_u32 api k name v written >>= g)
  then_u32 name v g d rest =
      Step-bind api laws k (put_u32 api k name v) g (put_u32-Step api laws k name v d) rest

  then_flag :
      (name : Text) (v : Option Bool) (g : Written → Act api.World Error Written)
      → differs_from_marker name ≡ true
      → Step api laws k g
      → Step api laws k (λ written. put_flag api k name v written >>= g)
  then_flag name v g d rest =
      Step-bind api laws k (put_flag api k name v) g (put_flag-Step api laws k name v d) rest

  write_policies-Step :
      (cfg : ManagedApplicationConfig) → Step api laws k (write_policies api k cfg)
  unfolding write_policies
  write_policies-Step cfg =
      (then_u32 NssmKeys.app_restart_delay (cfg.restart_policy.restart_delay_ms) _
        (unfold text eq_ignore_case in refl)
        (then_u32 NssmKeys.app_throttle (cfg.restart_policy.throttle_delay_ms) _
          (unfold text eq_ignore_case in refl)
          (then_u32 NssmKeys.app_stop_method_skip (cfg.shutdown.stop_method_skip) _
            (unfold text eq_ignore_case in refl)
            (then_u32 NssmKeys.app_kill_console_grace (cfg.shutdown.kill_console_grace_ms) _
              (unfold text eq_ignore_case in refl)
              (then_u32 NssmKeys.app_kill_window_grace (cfg.shutdown.kill_window_grace_ms) _
                (unfold text eq_ignore_case in refl)
                (then_u32 NssmKeys.app_kill_threads_grace (cfg.shutdown.kill_threads_grace_ms) _
                  (unfold text eq_ignore_case in refl)
                  (put_flag-Step api laws k NssmKeys.app_kill_process_tree
                    (cfg.shutdown.kill_process_tree) (unfold text eq_ignore_case in refl))))))))

  put_bytes-Step : (v : Option ℕ) → Step api laws k (put_bytes api k v)
  unfolding put_bytes
  put_bytes-Step none = Step-pure api laws k
  put_bytes-Step (some v) =
      Step-bind api laws k _ _
        (put-Step api laws k NssmKeys.app_rotate_bytes_low _ (
          write_u32-Calm api laws k NssmKeys.app_rotate_bytes_low (v % 2 ^ 32)
            (unfold text eq_ignore_case in refl)))
        (put-Step api laws k NssmKeys.app_rotate_bytes_high _ (
          write_u32-Calm api laws k NssmKeys.app_rotate_bytes_high (v / 2 ^ 32)
            (unfold text eq_ignore_case in refl)))

  write_rotation-Step :
      (cfg : ManagedApplicationConfig) → Step api laws k (write_rotation api k cfg)
  unfolding write_rotation
  write_rotation-Step cfg =
      (then_flag NssmKeys.app_rotate (cfg.rotation.enabled) _ (unfold text eq_ignore_case in refl) (
        then_u32 NssmKeys.app_rotate_online (cfg.rotation.online) _
          (unfold text eq_ignore_case in refl)
          (then_u32 NssmKeys.app_rotate_seconds (cfg.rotation.seconds) _
            (unfold text eq_ignore_case in refl)
            (Step-bind api laws k (put_bytes api k cfg.rotation.bytes) _
              (put_bytes-Step cfg.rotation.bytes)
              (put_u32-Step api laws k NssmKeys.app_rotate_delay cfg.rotation.delay_ms
                (unfold text eq_ignore_case in refl))))))

  -- The names of a stream, which all differ from the marker.
  write_io_stream-Step :
      (cfg : ManagedApplicationConfig) (base : Text) (stream : Option IoStream)
      → differs_from_marker base ≡ true
      → all differs_from_marker (stdio_attribute_names base) ≡ true
      → Step api laws k (write_io_stream api k cfg base stream)
  unfolding write_io_stream stdio_attribute_names
  write_io_stream-Step cfg base none d all_differ written w m h = (m, h)
  write_io_stream-Step cfg base (some stream) d all_differ written w m h =
      let d0 = differs_from_marker (base ++ NssmKeys.app_stdio_sharing) in
      let d1 = differs_from_marker (base ++ NssmKeys.app_stdio_disposition) in
      let d2 = differs_from_marker (base ++ NssmKeys.app_stdio_flags) in
      let d3 = differs_from_marker (base ++ NssmKeys.app_stdio_copy_and_truncate) in
      let r1 = &&-right d0 (d1 && (d2 && (d3 && true))) all_differ in
      let r2 = &&-right d1 (d2 && (d3 && true)) r1 in
      let r3 = &&-right d2 (d3 && true) r2 in
      >>=-after (λ (out : Result Error (Unit {0}) × api.World). Marked api laws k out.1)
        (IsGood api laws k) (write_config_string api k cfg base stream.path) _ w
        (Calm-Marked api laws k _ w (write_config_string-Calm api laws k cfg base stream.path d) m)
        (λ _ t m'.
          (then_u32 _ stream.share_mode _ (&&-left d0 (d1 && (d2 && (d3 && true))) all_differ) (
              then_u32 _ stream.creation_disposition _ (&&-left d1 (d2 && (d3 && true)) r1) (
                then_u32 _ stream.flags_and_attributes _ (&&-left d2 (d3 && true) r2)
                  (put_flag-Step api laws k _ stream.copy_and_truncate (&&-left d3 true r3)))))
            (base ∷ written) t m' (rw h (||-true (text_eq NssmKeys.application base))))
        (λ e t m'. m')

  write_streams-Step : (cfg : ManagedApplicationConfig) → Step api laws k (write_streams api k cfg)
  unfolding write_streams
  write_streams-Step cfg =
      then_flag NssmKeys.app_timestamp_log cfg.io.timestamp_log _
        (unfold text eq_ignore_case in refl)
        (Step-bind api laws k _ _
          (stream NssmKeys.app_stdin cfg.io.stdin (unfold text eq_ignore_case in refl)
            (unfold text eq_ignore_case stdio_attribute_names in refl))
          (Step-bind api laws k _ _
            (stream NssmKeys.app_stdout cfg.io.stdout (unfold text eq_ignore_case in refl)
              (unfold text eq_ignore_case stdio_attribute_names in refl))
            (stream NssmKeys.app_stderr cfg.io.stderr (unfold text eq_ignore_case in refl)
              (unfold text eq_ignore_case stdio_attribute_names in refl))))
    where
      stream :
          (base : Text) (s : Option IoStream)
          → differs_from_marker base ≡ true
          → all differs_from_marker (stdio_attribute_names base) ≡ true
          → Step api laws k (write_io_stream api k cfg base s)
      stream base s d all_differ = write_io_stream-Step cfg base s d all_differ

  -- The first value that is written is the marker.
  put_marker-IsGood :
      (cfg : ManagedApplicationConfig) (app : Text) (w : api.World)
      → IsUnicode app
      → is_blank app ≡ false
      → Marked api laws k w
      → IsGood api laws k (put_string api k cfg NssmKeys.application (some app) [] w)
  unfolding put_string put write_config_string
  put_marker-IsGood cfg app w u filled m =
      >>=-after (λ (out : Result Error (Unit {0}) × api.World). Marked api laws k out.1)
        (IsGood api laws k) _ _ w
        (>>=-elim (λ (out : Result Error (Unit {0}) × api.World). Marked api laws k out.1)
          (from_result (registry_is_expandable api cfg NssmKeys.application)) _ w
          (λ expandable e.
            write_marker-Marked api laws k app (string_kind api expandable) w u
              (string_kind_lem expandable) filled m)
          (λ e failed. m))
        (λ _ t m'. (m', rw (text_eq_refl NssmKeys.application) refl)) (λ e t m'. m')
    where
      string_kind_lem : (expandable : Bool) → is_string_type (string_kind api expandable) ≡ true
      string_kind_lem true = refl
      string_kind_lem false = refl

  pub write_scalars-IsGood :
      (cfg : ManagedApplicationConfig) (app : Text) (w : api.World)
      → cfg.application ≡ some app
      → IsUnicode app
      → is_blank app ≡ false
      → Marked api laws k w
      → IsGood api laws k (write_scalars api k cfg w)
  unfolding write_scalars
  write_scalars-IsGood cfg app w e u filled m =
      >>=-after (IsGood api laws k) (IsGood api laws k)
        (put_string api k cfg NssmKeys.application cfg.application []) _ w
        (subst (λ o. IsGood api laws k (put_string api k cfg NssmKeys.application o [] w)) (sym e)
          (put_marker-IsGood cfg app w u filled m))
        (λ written t (m', h).
          (Step-bind api laws k _ _
              (put_string-Step api laws k cfg NssmKeys.app_parameters cfg.app_parameters
                (unfold text eq_ignore_case in refl))
              (Step-bind api laws k _ _
                (put_string-Step api laws k cfg NssmKeys.app_directory cfg.app_directory
                  (unfold text eq_ignore_case in refl))
                (Step-bind api laws k _ _
                  (put_u32-Step api laws k NssmKeys.app_priority cfg.priority
                    (unfold text eq_ignore_case in refl))
                  (Step-bind api laws k _ _
                    (put_string-Step api laws k cfg NssmKeys.app_affinity cfg.affinity
                      (unfold text eq_ignore_case in refl))
                    (Step-bind api laws k _ _
                      (put_multi-Step api laws k NssmKeys.app_environment cfg.environment
                        (unfold text eq_ignore_case in refl))
                      (Step-bind api laws k _ _
                        (put_multi-Step api laws k NssmKeys.app_environment_extra
                          cfg.environment_extra (unfold text eq_ignore_case in refl))
                        (Step-bind api laws k _ _ (write_policies-Step cfg) (
                          Step-bind api laws k _ _ (write_rotation-Step cfg)
                            (write_streams-Step cfg)))))))))
            written t m' h)
        (λ e t m'. m')
