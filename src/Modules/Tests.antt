-- ===== src/Modules/Tests.antt =====
-- A module of one function, loaded by system calls and as a library, and the theorems about it.
use vernis_os.Prelude.{
  ℕ, ◌+◌, ◌*◌, ◌<◌, ◌≡◌, refl, List, [], ◌∷◌, ◌++◌, none, some, arith, replicate, get_or, take,
  drop,
}
use vernis_os.Prelude.Bytes.{from_le}
use vernis_os.Prelude.Find.{find_index, find_from}
use vernis_os.Prelude.Words.{u32}
use vernis_os.Modules.{Modules, RegistryOps, value, module_init, module_syscall, parse_header}
use vernis_os.Modules.Table.{SlotsOk, start, call, Reach-SlotsOk}
use vernis_os.Modules.Dylib.{
  Dylibs, done, passed_on, dylib_init, dylib_open, dylib_call, dylib_symbol_to_fnid,
  function_number, read_digits,
}
use vernis_os.Modules.Libraries.{Openable, dylib_open-call}

abbrev no_registry : RegistryOps Unit
no_registry = record {
  register = λ r mid name base_addr code_size fn_count. r;
  unregister = λ r mid. r;
}

-- "MODL", version 1, one function at offset 4 in 16 bytes of code, and the name "m".
abbrev image : List ℕ
image =
    0x4D
    ∷ 0x4F
    ∷ 0x44
    ∷ 0x4C
    ∷ 1
    ∷ 0
    ∷ 0
    ∷ 0
    ∷ 1
    ∷ 0
    ∷ 0
    ∷ 0
    ∷ 16
    ∷ 0
    ∷ 0
    ∷ 0
    ∷ b'm'
    ∷ (replicate 23 0 ++ (4 ∷ replicate 47 0))

abbrev code : ℕ → ℕ → ℕ
code address arg = address + arg

abbrev same_image : ℕ → List ℕ
same_image address = image

abbrev no_modules : Modules Unit
no_modules = module_init (some tt) []

abbrev one_module : Modules Unit
one_module = (module_syscall no_registry 32 same_image code no_modules 28 0x1000 88 0).0

-- Another image in the same buffer: its module is called "n".
abbrev next_image : ℕ → List ℕ
next_image address = take 16 image ++ (b'n' ∷ drop 17 image)

abbrev two_modules : Modules Unit
two_modules = (module_syscall no_registry 32 next_image code one_module 28 0x1000 88 0).0

Reach-SlotsOk_example : SlotsOk two_modules.slots
Reach-SlotsOk_example = Reach-SlotsOk no_registry 32 two_modules (
    call next_image code one_module 28 0x1000 88 0
      (call same_image code no_modules 28 0x1000 88 0 (start (some tt))))

abbrev no_libs : Dylibs Unit
no_libs = dylib_init no_modules

abbrev buffer_at : ℕ → ℕ
buffer_at i = 0x100000 + i * 8192

modules_code : ℕ
unfolding module_init dylib_init find_index find_from parse_header from_le dylib_symbol_to_fnid
    function_number read_digits
modules_code = 0

openable : Openable 32 buffer_at no_libs image 0 0
unfolding modules_code
openable = record {
  lib_free = refl;
  module_free = refl;
  table = refl;
  located = omega arith;
  long = omega arith;
  valid = record { magic = refl; version = refl; few = omega arith; whole = omega arith };
  fresh = λ j lt. absurd (omega arith);
}

fn0 : dylib_symbol_to_fnid (some (b'f' ∷ b'n' ∷ b'0' ∷ [])) ≡ some 0
unfolding modules_code
fn0 = refl

one_function : 0 < (parse_header image).fn_count
unfolding modules_code
one_function = omega arith

dylib_open-call_example :
    (let r =
        dylib_open no_registry 32 buffer_at no_libs (some (b'/' ∷ b'm' ∷ [])) none (some image) in
      (r.1 ≡ done no_libs.next_handle)
      × (dylib_call code r.0 no_libs.next_handle (some (b'f' ∷ b'n' ∷ b'0' ∷ [])) 7
          ≡ passed_on (
              value (
                code
                  (u32 (u32 (buffer_at 0 + 72) + get_or (parse_header image).fn_offsets 0 0))
                  7))))
dylib_open-call_example =
    dylib_open-call no_registry 32 buffer_at code no_libs b'/' (b'm' ∷ []) image none
      (some (b'f' ∷ b'n' ∷ b'0' ∷ [])) 0 0 0 7 openable fn0 one_function
