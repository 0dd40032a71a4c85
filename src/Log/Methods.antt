-- ===== src/Log/Methods.antt =====
-- log/context.go: the logging methods of `FieldLogger`, and what they are called with.
use golang_service.Prelude.{String, List}
use golang_service.Http.Values.{Any}

pub data Method : Type 0 where
  debug info print warn warning error fatal panic : Method

-- An argument of a variadic call: a value, or a slice that is passed as one value.
pub data Arg : Type 0 where
  value : Any → Arg
  slice : List Any → Arg

-- A call of a logger: Debug … Panic, Debugf … Panicf, Debugln … Panicln.
pub data Call : Type 0 where
  plain : Method → List Arg → Call
  formatted : Method → String → List Arg → Call
  line : Method → List Arg → Call
