-- ===== src/Libraries/Dynamic.antt =====
-- `DynamicLibrary` of lib/dynamic_library.js over the four functions of the dynamic linker. What
-- `readFileSync` returns is a parameter. The `name` that a symbol's buffer gets is not modelled.
use js_ffi_cross.Base.{ℕ, zero, suc, pos, if◌then◌else◌, Option, none, some, List, [], ◌∷◌}
use js_ffi_cross.Base.Result.{
  Error, Result, ok, err, no_library_handle, no_symbol_buffer, too_much_recursion, no_match_method,
  dynamic_linking_error, dynamic_symbol_error,
}
use js_ffi_cross.Text.{Text}
use js_ffi_cross.Scalar.{number, null}
use js_ffi_cross.Value.{Value, TypedBuffer, scalar, text, reference}
use js_ffi_cross.World.{Host, Action, pure, lift, raise, ◌>>=◌}
use js_ffi_cross.Pointers.{is_null}
use js_ffi_cross.Libraries.Script.{so_library, group_file}

-- A function of the program: what a call with arguments does.
abbrev pub JsFunction : Type 0
JsFunction = List Value → Action Value

-- `dlopen`, `dlclose`, `dlsym` and `dlerror`, as lib/dynamic_library.js calls them.
pub record Linker : Type 0 where
  pub dlopen : JsFunction
  pub dlclose : JsFunction
  pub dlsym : JsFunction
  pub dlerror : JsFunction

-- `_path`, where `none` is null, and `_handle`.
pub record DynamicLibrary : Type 0 where
  pub path : Option Text
  pub handle : TypedBuffer

abbrev pub path_value : Option Text → Value
path_value none = scalar null
path_value (some path) = text path

-- `assert(Buffer.isBuffer(value))`
abbrev pub as_buffer : Error → Value → Result TypedBuffer
as_buffer e (reference view type) = ok (record { view = view; type = type })
as_buffer e _ = err e

abbrev pub from_buffer : TypedBuffer → Value
from_buffer buf = reference buf.view buf.type

-- `null == mode`
abbrev pub mode_or : Option ℕ → ℕ → ℕ
mode_or none lazy = lazy
mode_or (some mode) lazy = mode

-- What `dlerror` returned, at the end of a message; `none` where it is no text.
abbrev pub message_of : Value → Option Text
message_of (text message) = some message
message_of _ = none

module _ (host : Host) (linker : Linker) where
  -- `DynamicLibrary.prototype.error`, `close` and `get`.
  unfoldable pub error : Action Value
  error = linker.dlerror []

  unfoldable pub close : DynamicLibrary → Action Value
  close library = linker.dlclose (from_buffer library.handle ∷ [])

  unfoldable pub get : DynamicLibrary → Text → Action TypedBuffer
  unfolding is_null error
  get library symbol = do
    found ← linker.dlsym (from_buffer library.handle ∷ text symbol ∷ [])
    ptr ← lift (as_buffer no_symbol_buffer found)
    (if is_null host ptr.view
        then (do message ← error; raise (dynamic_symbol_error (message_of message)))
        else pure ptr)

  module _ (rtld_lazy : ℕ) (read_file : Text → Result Text) where
    -- The text of the file that the message names, if it names one, and the file that it names.
    abbrev pub script_target : Option Text → Action (Option Text)
    script_target none = pure none
    script_target (some file) = do content ← lift (read_file file); pure (group_file content)

    abbrev pub matched : Value → Action Text
    matched (text message) = pure message
    matched _ = raise no_match_method

    abbrev pub or_retry :
        (Option Text → Action DynamicLibrary) → Text → Option Text → Action DynamicLibrary
    or_retry retry message none = raise (dynamic_linking_error message)
    or_retry retry message (some file) = retry (some file)

    -- `DynamicLibrary`: one unit of fuel for each constructor on the stack.
    unfoldable pub dynamic_library : ℕ → Option Text → Option ℕ → Action DynamicLibrary
    unfolding is_null error so_library group_file
    dynamic_library zero path mode = raise too_much_recursion
    dynamic_library (suc fuel) path mode = do
      let flags = mode_or mode rtld_lazy
      opened ← linker.dlopen (path_value path ∷ scalar (number (pos flags)) ∷ [])
      handle ← lift (as_buffer no_library_handle opened)
      (if is_null host handle.view
          then (do
            answer ← error
            message ← matched answer
            target ← script_target (so_library message)
            or_retry (λ file. dynamic_library fuel file (some flags)) message target)
          else pure (record { path = path; handle = handle }))
