-- ===== src/Core/Error.antt =====
-- crates/servicemanager-core/src/error.rs. An I/O error is carried as its text.
use ngsm.Prelude.{◌++◌}
use ngsm.Text.{Text, text}

pub data Error : Type 0 where
  not_found access_denied invalid_config registry scm io other : Text → Error

-- `to_string` of the derived Display.
unfoldable pub to_string : Error → Text
to_string (not_found m) = text "service not found: " ++ m
to_string (access_denied m) = text "access denied: " ++ m
to_string (invalid_config m) = text "invalid configuration: " ++ m
to_string (registry m) = text "registry: " ++ m
to_string (scm m) = text "scm: " ++ m
to_string (io m) = text "io: " ++ m
to_string (other m) = m
