-- ===== src/Core/Expansion/Config/Resolved.antt =====
-- What `resolve_expandable_strings` of crates/servicemanager-core/src/expansion.rs answers.
use ngsm.Prelude.{
  ◌≡◌, refl, sym, ap, ◌∙◌, subst, inl, inr, Bool, true, false, Option, none, some, List, [], ◌∷◌,
  Option-cases,
}
use ngsm.Text.{Text, text}
use ngsm.Result.{ok, >>=-eq-ok}
use ngsm.Core.Model.{ManagedApplicationConfig, IoStream, HookConfig}
use ngsm.Core.Expansion.{expand}
use ngsm.Core.Expansion.Meaning.{Expands}
use ngsm.Core.Expansion.Sound.{expand_sound}
use ngsm.Core.Expansion.Total.{expand_total}
use ngsm.Core.Expansion.Config.{
  is_expandable_string, hook_expansion_key, expanded, resolve_text, resolve_option, resolve_stream,
  resolve_hooks, resolve_expandable_strings,
}

module _ (lookup : Text → Option Text) where
  expanded-expand :
      (field s s' : Text) → expanded lookup field s ≡ ok s' → expand lookup field s ≡ some (ok s')
  unfolding expanded
  expanded-expand field s s' h = elim (Option-cases (expand lookup field s)) [
    | inl e ↦ let total = expand_total lookup field s in cc (e, total.1)
    | inr e ↦ e.1 ∙ ap some (rw (e.1, expanded) at h)
  ]

  -- A text that is marked expands; one that is not stays.
  abbrev pub TextResolves : Bool → Text → Text → Text → Type 0
  TextResolves true field s s' = Expands lookup field s s'
  TextResolves false field s s' = s' ≡ s

  abbrev pub OptionResolves : Bool → Text → Option Text → Option Text → Type 0
  OptionResolves marked field none s' = s' ≡ none
  OptionResolves marked field (some s) none = ⊥
  OptionResolves marked field (some s) (some s') = TextResolves marked field s s'

  abbrev pub StreamResolves : Bool → Text → Option IoStream → Option IoStream → Type 0
  StreamResolves marked field none s' = s' ≡ none
  StreamResolves marked field (some s) none = ⊥
  StreamResolves marked field (some s) (some s') =
      (s' ≡ record s { path = s'.path }) × TextResolves marked field s.path s'.path

  abbrev pub HooksResolve : ManagedApplicationConfig → List HookConfig → List HookConfig → Type 0
  HooksResolve c [] hs' = hs' ≡ []
  HooksResolve c (h ∷ hs) [] = ⊥
  HooksResolve c (h ∷ hs) (h' ∷ hs') =
      (h' ≡ record h { command = h'.command })
      × TextResolves (is_expandable_string c (hook_expansion_key h.event h.action))
          (hook_expansion_key h.event h.action) h.command h'.command
      × HooksResolve c hs hs'

  resolve_text_sound :
      (marked : Bool) (field s s' : Text)
      → resolve_text lookup marked field s ≡ ok s'
      → TextResolves marked field s s'
  unfolding resolve_text
  resolve_text_sound true field s s' h =
      (expand_sound lookup field s s' (expanded-expand field s s' h)).0
  resolve_text_sound false field s s' h = cc

  resolve_option_sound :
      (marked : Bool) (field : Text) (s s' : Option Text)
      → resolve_option lookup marked field s ≡ ok s'
      → OptionResolves marked field s s'
  unfolding resolve_option
  resolve_option_sound marked field none s' h = cc
  resolve_option_sound marked field (some s) none h =
      let step = >>=-eq-ok (resolve_text lookup marked field s) _ h in cc (step.2)
  resolve_option_sound marked field (some s) (some t) h =
      let step = >>=-eq-ok (resolve_text lookup marked field s) _ h in
      let same : step.0 ≡ t = cc (step.2) in
      resolve_text_sound marked field s t (step.1 ∙ ap ok same)

  resolve_stream_sound :
      (marked : Bool) (field : Text) (s s' : Option IoStream)
      → resolve_stream lookup marked field s ≡ ok s'
      → StreamResolves marked field s s'
  unfolding resolve_stream
  resolve_stream_sound marked field none s' h = cc
  resolve_stream_sound marked field (some s) none h =
      let step = >>=-eq-ok (resolve_text lookup marked field s.path) _ h in cc (step.2)
  resolve_stream_sound marked field (some s) (some t) h =
      let step = >>=-eq-ok (resolve_text lookup marked field s.path) _ h in
      let made : record s { path = step.0 } ≡ t = cc (step.2) in
      let same : step.0 ≡ t.path = ap (λ r. r.path) made in
      (
        sym made ∙ ap (λ p. record s { path = p }) same,
        resolve_text_sound marked field s.path t.path (step.1 ∙ ap ok same),
      )

  resolve_hooks_sound :
      (c : ManagedApplicationConfig) (hs hs' : List HookConfig)
      → resolve_hooks lookup c hs ≡ ok hs'
      → HooksResolve c hs hs'
  unfolding resolve_hooks
  resolve_hooks_sound c [] hs' h = cc
  resolve_hooks_sound c (k ∷ ks) hs' h =
      let key = hook_expansion_key k.event k.action in
      let marked = is_expandable_string c key in
      let one = >>=-eq-ok (resolve_text lookup marked key k.command) _ h in
      let two = >>=-eq-ok (resolve_hooks lookup c ks) _ one.2 in
      let first : HookConfig = record k { command = one.0 } in
      let made : (first ∷ two.0) ≡ hs' = cc (two.2) in
      subst (λ xs. HooksResolve c (k ∷ ks) xs) made
        (
          refl,
          resolve_text_sound marked key k.command one.0 one.1,
          resolve_hooks_sound c ks two.0 two.1,
        )

  -- Every text of the result is the expansion of the text of `c`, when the name of its field is on the
  -- list of expandable strings, and the same text otherwise. Nothing is expandable any more, and the
  -- fields that cannot be expandable are those of `c`.
  abbrev pub Resolves : ManagedApplicationConfig → ManagedApplicationConfig → Type 0
  Resolves c c' =
      OptionResolves (is_expandable_string c (text "Application")) (text "Application")
        c.application c'.application
      × OptionResolves (is_expandable_string c (text "AppParameters")) (text "AppParameters")
          c.app_parameters c'.app_parameters
      × OptionResolves (is_expandable_string c (text "AppDirectory")) (text "AppDirectory")
          c.app_directory c'.app_directory
      × OptionResolves (is_expandable_string c (text "AppAffinity")) (text "AppAffinity") c.affinity
          c'.affinity
      × StreamResolves (is_expandable_string c (text "AppStdin")) (text "AppStdin") c.io.stdin
          c'.io.stdin
      × StreamResolves (is_expandable_string c (text "AppStdout")) (text "AppStdout") c.io.stdout
          c'.io.stdout
      × StreamResolves (is_expandable_string c (text "AppStderr")) (text "AppStderr") c.io.stderr
          c'.io.stderr
      × HooksResolve c c.hooks c'.hooks
      × (c' ≡ record c {
        application = c'.application;
        app_parameters = c'.app_parameters;
        app_directory = c'.app_directory;
        affinity = c'.affinity;
        io = record {
          stdin = c'.io.stdin;
          stdout = c'.io.stdout;
          stderr = c'.io.stderr;
          timestamp_log = c.io.timestamp_log;
        };
        hooks = c'.hooks;
        expandable_strings = [];
      })

  -- When the expandable strings of a configuration resolve, exactly the texts that are marked as
  -- expandable have been replaced, by their expansion, and every other part of the configuration is
  -- as it was but for the list of marks, which is empty.
  pub resolve_expandable_strings_sound :
      (c c' : ManagedApplicationConfig)
      → resolve_expandable_strings lookup c ≡ ok c'
      → Resolves c c'
  unfolding resolve_expandable_strings
  resolve_expandable_strings_sound c c' h =
      let marked = is_expandable_string c in
      let s1 =
        >>=-eq-ok
          (resolve_option lookup (marked (text "Application")) (text "Application") c.application) _
          h in
      let s2 =
        >>=-eq-ok
          (resolve_option lookup (marked (text "AppParameters")) (text "AppParameters")
            c.app_parameters)
          _ s1.2 in
      let s3 =
        >>=-eq-ok
          (resolve_option lookup (marked (text "AppDirectory")) (text "AppDirectory")
            c.app_directory)
          _ s2.2 in
      let s4 =
        >>=-eq-ok
          (resolve_option lookup (marked (text "AppAffinity")) (text "AppAffinity") c.affinity) _
          s3.2 in
      let s5 =
        >>=-eq-ok (resolve_stream lookup (marked (text "AppStdin")) (text "AppStdin") c.io.stdin) _
          s4.2 in
      let s6 =
        >>=-eq-ok (resolve_stream lookup (marked (text "AppStdout")) (text "AppStdout") c.io.stdout)
          _ s5.2 in
      let s7 =
        >>=-eq-ok (resolve_stream lookup (marked (text "AppStderr")) (text "AppStderr") c.io.stderr)
          _ s6.2 in
      let s8 = >>=-eq-ok (resolve_hooks lookup c c.hooks) _ s7.2 in
      let made : record c {
        application = s1.0;
        app_parameters = s2.0;
        app_directory = s3.0;
        affinity = s4.0;
        io = record {
          stdin = s5.0;
          stdout = s6.0;
          stderr = s7.0;
          timestamp_log = c.io.timestamp_log;
        };
        hooks = s8.0;
        expandable_strings = [];
      }
          ≡ c' =
        cc (s8.2) in
      subst (λ d. Resolves c d) made
        (
          resolve_option_sound _ _ _ _ s1.1,
          resolve_option_sound _ _ _ _ s2.1,
          resolve_option_sound _ _ _ _ s3.1,
          resolve_option_sound _ _ _ _ s4.1,
          resolve_stream_sound _ _ _ _ s5.1,
          resolve_stream_sound _ _ _ _ s6.1,
          resolve_stream_sound _ _ _ _ s7.1,
          resolve_hooks_sound c c.hooks _ s8.1,
          refl,
        )
