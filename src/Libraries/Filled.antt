-- ===== src/Libraries/Filled.antt =====
-- The object that `Library` of lib/library.js leaves, whether it returns or throws.
use js_ffi_cross.Base.{ℕ, ◌≡◌, ◌⊎◌, inl, inr, refl, sym, ap, ◌∙◌, List, [], ◌∷◌, ◌++◌}
use js_ffi_cross.Base.Result.{Error, Result, ok, err}
use js_ffi_cross.Text.{Text}
use js_ffi_cross.CType.Coerce.{Types}
use js_ffi_cross.World.{World, Host}
use js_ffi_cross.Access.{Composite}
use js_ffi_cross.Cif.{Native}
use js_ffi_cross.Foreign.{Libffi}
use js_ffi_cross.Callbacks.{MakeClosure}
use js_ffi_cross.Libraries.Dynamic.{Linker, DynamicLibrary}
use js_ffi_cross.Libraries.{
  FunctionInfo, Entry, LibObject, LibFile, enter, define_function, define_functions, open_file,
  fill, library,
}
use js_ffi_cross.Libraries.Entries.{IsSymbol, define_function-IsSymbol}

-- Properties assigned one after the other.
abbrev pub entered : LibObject → LibObject → LibObject
entered [] lib = lib
entered (entry ∷ entries) lib = entered entries (entry ∷ lib)

abbrev Outcome : Type 0
Outcome = LibObject × Result (Unit {0}) × World

module _ (host : Host) (composite : Composite) (types : Types) (native : Native) (libffi : Libffi)
    (make_closure : MakeClosure) (linker : Linker) where
  module _ (dl : DynamicLibrary) where
    -- Each entry has the name of its function and is one around the symbol of that name.
    abbrev pub Bound : List (Text × FunctionInfo) → LibObject → Type 0
    Bound [] [] = Unit
    Bound ((func, info) ∷ funcs) ((name, entry) ∷ entries) =
        (name ≡ func) × IsSymbol host linker dl func info entry × Bound funcs entries
    Bound _ _ = ⊥

    -- With nothing left the call returns; otherwise the first function that is left threw.
    abbrev pub Ended : List (Text × FunctionInfo) → Result (Unit {0}) → World → Type 0
    Ended [] r w' = r ≡ ok tt
    Ended ((func, info) ∷ funcs) r w' =
        (e : Error) × (r ≡ err e)
        × (start : World) × (define_function host composite types native libffi make_closure linker
              dl func info start
            ≡ (err e, w'))

    pub record IsFilled (funcs : List (Text × FunctionInfo)) (lib lib' : LibObject)
        (r : Result (Unit {0})) (w' : World) : Type 0 where
      pub done : List (Text × FunctionInfo)
      pub left : List (Text × FunctionInfo)
      pub entries : LibObject
      pub split : done ++ left ≡ funcs
      pub filled : entered entries lib ≡ lib'
      pub bound : Bound done entries
      pub ended : Ended left r w'

    define_functions-IsFilled :
        (funcs : List (Text × FunctionInfo)) (lib : LibObject) (w : World) (out : Outcome)
        → define_functions host composite types native libffi make_closure linker dl funcs lib w
          ≡ out
        → IsFilled funcs lib out.0 out.1 out.2
    unfolding define_functions
    define_functions-IsFilled [] lib w out h = record {
      done = [];
      left = [];
      entries = [];
      split = refl;
      filled = ap (λ (x : Outcome). x.0) h;
      bound = tt;
      ended = sym (ap (λ (x : Outcome). x.1) h);
    }
    define_functions-IsFilled ((func, info) ∷ funcs) lib w out h =
        go (define_function host composite types native libffi make_closure linker dl func info w)
          (λ entry w1 e. define_functions-IsFilled funcs ((func, entry) ∷ lib) w1 out e) refl h
      where
        go :
            (made : Result Entry × World)
            (further : (entry : Entry) (w1 : World)
              → define_functions host composite types native libffi make_closure linker dl funcs
                  ((func, entry) ∷ lib)
                  w1
                ≡ out
              → IsFilled funcs ((func, entry) ∷ lib) out.0 out.1 out.2)
            → define_function host composite types native libffi make_closure linker dl func info w
              ≡ made
            → enter func lib made
                (define_functions host composite types native libffi make_closure linker dl funcs)
              ≡ out
            → IsFilled ((func, info) ∷ funcs) lib out.0 out.1 out.2
        go (ok entry, w1) further made e =
            let rest = further entry w1 e in
            record {
              done = (func, info) ∷ rest.done;
              left = rest.left;
              entries = (func, entry) ∷ rest.entries;
              split = ap (λ fs. (func, info) ∷ fs) rest.split;
              filled = rest.filled;
              bound = (
                refl,
                define_function-IsSymbol host composite types native libffi make_closure linker dl
                    func info w w1 entry made,
                rest.bound,
              );
              ended = rest.ended;
            }
        go (err thrown, w1) further made e = record {
          done = [];
          left = (func, info) ∷ funcs;
          entries = [];
          split = refl;
          filled = ap (λ (x : Outcome). x.0) e;
          bound = tt;
          ended = (
            thrown,
            sym (ap (λ (x : Outcome). x.1) e),
            w,
            made ∙ ap (λ (x : Outcome). (err thrown, x.2)) e,
          );
        }

  module _ (rtld_lazy rtld_now : ℕ) (read_file : Text → Result Text) (platform : Text) where
    -- Either the library cannot be opened, and `Library` throws what its constructor threw and leaves
    -- the object as it was; or it is opened, and then the object gets an entry for each function of
    -- the list up to the first one whose definition throws, in their order: a function of the kind that
    -- the options ask for, around the address that the linker found for that very name in that library,
    -- never NULL. If none throws, `Library` returns with all of them; otherwise it throws what that
    -- definition threw, and the entries before it stay in the object.
    pub library-IsFilled :
        (fuel : ℕ) (libfile : LibFile) (funcs : List (Text × FunctionInfo)) (lib : LibObject)
        (w : World) (out : Outcome)
        → library host composite types native libffi make_closure linker rtld_lazy rtld_now
            read_file platform fuel libfile funcs lib w
          ≡ out
        → ((e : Error) × (open_file host composite types native libffi make_closure linker rtld_lazy
                rtld_now read_file platform fuel libfile w
              ≡ (err e, out.2))
            × (out.1 ≡ err e)
            × (out.0 ≡ lib))
          ⊎ ((dl : DynamicLibrary) × (opened : World) × (open_file host composite types native
                  libffi make_closure linker rtld_lazy rtld_now read_file platform fuel libfile w
                ≡ (ok dl, opened))
              × IsFilled dl funcs lib out.0 out.1 out.2)
    unfolding library
    library-IsFilled fuel libfile funcs lib w out h =
        go
          (open_file host composite types native libffi make_closure linker rtld_lazy rtld_now
            read_file platform fuel libfile w)
          h
      where
        go :
            (outcome : Result DynamicLibrary × World)
            → fill host composite types native libffi make_closure linker rtld_lazy rtld_now
                read_file platform funcs lib outcome
              ≡ out
            → ((e : Error) × (outcome ≡ (err e, out.2)) × (out.1 ≡ err e) × (out.0 ≡ lib))
              ⊎ ((dl : DynamicLibrary) × (opened : World) × (outcome ≡ (ok dl, opened))
                  × IsFilled dl funcs lib out.0 out.1 out.2)
        go (ok dl, opened) e =
            inr (dl, opened, refl, define_functions-IsFilled dl funcs lib opened out e)
        go (err thrown, w1) e = inl (
          thrown,
          ap (λ (x : Outcome). (err thrown, x.2)) e,
          sym (ap (λ (x : Outcome). x.1) e),
          sym (ap (λ (x : Outcome). x.0) e),
        )
