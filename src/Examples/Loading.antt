-- ===== src/Examples/Loading.antt =====
-- Loading of libraries on the example machine.
use js_ffi_cross.Base.{◌≡◌, refl, if◌then◌else◌, none, some, List, [], ◌∷◌, arith}
use js_ffi_cross.Base.Result.{Result, ok}
use js_ffi_cross.Text.{Text, codes, text_eq}
use js_ffi_cross.Value.{Value, text, reference}
use js_ffi_cross.World.{Action, pure}
use js_ffi_cross.Pointers.{is_null}
use js_ffi_cross.Access.{null_buffer}
use js_ffi_cross.Libraries.Script.{so_library, group_file, starts_with}
use js_ffi_cross.Libraries.Dynamic.{Linker, DynamicLibrary, dynamic_library}
use js_ffi_cross.Libraries.Chain.{Leads, opens, is_script, dynamic_library-Leads}
use js_ffi_cross.Examples.Machine.{machine, ramp_world, small_buffer}

versioned :
    so_library (codes "/lib.so/libc.so.6: invalid ELF header") ≡ some (codes "/lib.so/libc.so.6")
unfolding so_library
versioned = refl

nameless : so_library (codes ".so: invalid ELF header") ≡ none
unfolding so_library
nameless = refl

grouped :
    group_file (codes "/* GNU ld */ GROUP ( /lib/libc.so.6 AS_NEEDED ( /lib/ld.so ) )")
    ≡ some (codes "/lib/libc.so.6")
unfolding group_file
grouped = refl

-- A machine with one library, and one linker script that names it.
abbrev open_only : Text → List Value → Action Value
open_only file (text path ∷ flags) =
    pure (reference (if text_eq path file then small_buffer else null_buffer) none)
open_only file args = pure (reference null_buffer none)

abbrev linker : Linker
linker = record {
  dlopen = open_only (codes "/lib/libm.so.6");
  dlclose = λ args. pure (text []);
  dlsym = λ args. pure (reference null_buffer none);
  dlerror = λ args. pure (text (codes "/usr/lib/libm.so: invalid ELF header"));
}

abbrev read_file : Text → Result Text
read_file file = ok (codes "/* GNU ld */ GROUP ( /lib/libm.so.6 /lib/libmvec.a )")

abbrev libm : DynamicLibrary
libm = record {
  path = some (codes "/lib/libm.so.6");
  handle = record { view = small_buffer; type = none };
}

libm-Leads :
    Leads machine linker 1 read_file 1 2 (codes "/usr/lib/libm.so") ramp_world libm ramp_world
unfolding is_null text_eq starts_with
libm-Leads =
    is_script b'/' (codes "usr/lib/libm") (codes "invalid ELF header") (codes "/* GNU ld */ ") 1 1
      b'/' (codes "lib/libm.so.6") 32 (codes "/lib/libmvec.a )") refl refl refl
      (
        refl,
        (
          refl,
          (
            refl,
            (refl, (refl, (refl, (refl, (refl, (refl, (refl, (refl, (refl, (refl, tt)))))))))),
          ),
        ),
      )
      refl
      (
        refl,
        (
          refl,
          (
            refl,
            (refl, (refl, (refl, (refl, (refl, (refl, (refl, (refl, (refl, (refl, tt)))))))))),
          ),
        ),
      )
      (
        refl,
        (
          refl,
          (
            refl,
            (
              refl,
              (refl, (refl, (refl, (refl, (refl, (refl, (refl, (refl, (refl, (refl, tt)))))))))),
            ),
          ),
        ),
      )
      refl (opens refl refl)

dynamic_library-Leads_example :
    dynamic_library machine linker 1 read_file 5 (some (codes "/usr/lib/libm.so")) none ramp_world
    ≡ (ok libm, ramp_world)
dynamic_library-Leads_example =
    dynamic_library-Leads machine linker 1 read_file none libm-Leads (omega arith)
