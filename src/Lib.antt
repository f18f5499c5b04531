-- ===== src/Lib.antt =====
-- The core of js-ffi-cross, a foreign function interface for Node: how C values are read from and
-- written to memory, how C types are named, referenced and laid out, and how a call is described to
-- libffi.
--
-- The parts, from the bottom up:
-- - Base: Boolean tests, integers, lists and results over the native numbers. Exceptions are values
--   of `Error`, one for each `throw` or `assert` that the model reaches.
-- - Word, Scalar, Memory: the 32-bit operators of the language, its primitive values, and buffers as
--   views of one memory, a function from addresses to bytes, so that two buffers may alias.
-- - Codec: lib/ref/buffer.js. `Codec/Check` has checkOffset, checkInt, checkBounds, checkIntBI and
--   boundsError; `Codec/Read` and `Codec/Write` the readers and writers with their `|`, `<<` and `&`,
--   named as in the source in snake case (readUInt16LE is `read_uint16_le`). `Codec/Positional` is
--   the description in base 256 that they are compared with, and knows nothing of them.
--   `Codec/Float` has the float and double codecs.
-- - Accessors: the generated getters and setters of lib/ref/ref.js (getFunctionsGenerate,
--   setFunctionsGenerate, overrideGetSetFunctions), which call the codecs of the machine's byte order
--   (`Accessors/Endian`).
-- - Builtins: createCType of lib/ref/ref.js and the table of built-in types, over the native maps of
--   sizes and alignments.
-- - Value, World: the values that pass through `get` and `set`, and actions on the memory and the list
--   of what Buffer.alloc gave out, which may throw and keep what they wrote.
-- - Pointers: the pointer functions of src/ref-napi.cc, with reinterpret, reinterpretUntilZeros and
--   isNull of lib/ref/ref.js, which call them.
-- - Access: get, set, alloc, ref, deref, getType and the C string functions of lib/ref/ref.js, with the
--   accessors of the built-in types. They take types from `CType`, reach numbers through `Accessors`
--   and `Codec/Float`, and pointers through `Pointers`.
-- - Text, CType: the type objects that lib/ref/ref.js, struct.js, union.js and array.js make, and
--   coerceType, refType and derefType of lib/ref/ref.js (`CType/Coerce`). A clone is a constructor
--   around the type that it inherits from.
-- - Layout: Struct, Union, defineProperty and recalc of lib/ref/struct.js and lib/ref/union.js, which
--   read the attributes of `CType` and name types through `CType/Coerce`. `Layout/Construction` goes
--   from the list of fields that Struct is given to the type that it returns.
-- - FfiType: Type of lib/type.js, which describes the types that `Layout` lays out to libffi.
-- - Assembly: lib/ffi.js, which gives the types of `Builtins` the `ffi_type` that `FfiType` reads first;
--   what ffi.h names ffi_type_uchar and the like is a parameter.
-- - Cif: CIF and CIF_var of lib/cif.js and lib/cif_var.js, which call `FfiType` for the return type
--   and every argument.
-- - Variadic: lib/foreign_function_var.js, which calls `Cif` for each new list of argument types and
--   caches the function under a text made of the ids of the types (`Variadic/Hex`, `Variadic/Keys`).
--   `Variadic/Runs` follows a closure from the start of the program: `Identity` has what `getId` keeps,
--   `Pushes` a call's ids, `Cache` the functions that are stored and `Calls` one call.
-- - Arrays: instances of the array types of lib/ref/array.js, whose elements go through `Access`.
-- - Instances: instances of the struct and union types of lib/ref/struct.js and lib/ref/union.js, whose
--   fields go through `Access` at the offsets that `Layout` gives them.
-- - Composites: the `get` and `set` of struct, union and array types put together, which `Access` takes
--   as an argument and `Instances` and `Arrays` provide.
-- - Foreign: lib/_foreign_function.js: the proxy, which allocates storage for the result and the
--   arguments through `Access`, calls libffi and reads the result, and its asynchronous version.
-- - Callbacks: lib/foreign_function.js, lib/callback.js and lib/function.js, which make call
--   interfaces with `Cif` and proxies with `Foreign`, and read the arguments that C passes.
-- - Libraries: lib/library.js, lib/dynamic_library.js and lib/errno.js. `Libraries/Dynamic` takes the
--   functions of the dynamic linker as a record (`Linker`), which `Libraries` fills with proxies of
--   `Foreign`; `Libraries/Script` has the regular expressions that find the file in a linker script.
--   `Libraries/Entries` is about one function of the list that Library is given, `Libraries/Filled`
--   about all of them.
-- - Examples: the theorems at concrete inputs.
--
-- What the native module and libffi do is a parameter: sizes and alignments of pointers
-- (`Platform`, `NativeMaps`), the names of ffi.h (`FfiHeader`), and the tables, constants and statuses of libffi (`Native`). So is the
-- machine, Node and the language below the program (`Host`): where a new buffer is placed, UTF-8, the
-- formats of floats, how many bytes an ArrayBuffer over an address has, and what the package array-index
-- lets an array instance enumerate. What a C function does to the memory is one too (`Libffi`).
--
-- Bounds and fuel: offsets are reduced to 32 bits and integers to their width as the source does it,
-- written out. On fuel are the rounding of a BigInt to a Number (`Accessors/Getters`), where 12
-- halvings bring 64 bits to the 53 of a Number, the hexadecimal digits of an id (`Variadic`), where
-- eight serve 32 bits, the search for zeros of reinterpretUntilZeros, where kMaxLength rounds serve the
-- words of two, four and eight bytes, whose search stops at kMaxLength, and as many rounds as there are
-- addresses serve the single bytes, for which it is `strlen`, and the constructor of DynamicLibrary, which may follow linker
-- scripts for ever: it takes a unit for each file that it opens. `Composites` takes a unit for each
-- type inside of another. All other loops are structural recursion on a list, a field list, a type or
-- a count.
--
-- Where the process would crash, at a write through NULL or a string without an end, the model has an
-- error. Layouts are compared with the C compiler's for fields without pointers to arrays, which the
-- code takes for the arrays themselves (`Layout/Repeated`).
--
-- Not modelled: strings as numbers, fractional and infinite offsets, objects written to memory,
-- garbage collection with all that keeps buffers alive, the identity of type objects (`instanceof`
-- is a parameter), the constants that lib/ffi.js passes on, the other C++ sources, the text of error messages and debugging
-- output; deps/libffi is another project's.
pub mod Base
pub mod Word
pub mod Scalar
pub mod Memory
pub mod Codec
pub mod Accessors
pub mod Text
pub mod CType
pub mod Builtins
pub mod World
pub mod Value
pub mod Pointers
pub mod Access
pub mod Layout
pub mod FfiType
pub mod Cif
pub mod Assembly
pub mod Arrays
pub mod Instances
pub mod Composites
pub mod Foreign
pub mod Callbacks
pub mod Variadic
pub mod Libraries
pub mod Examples
