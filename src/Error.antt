-- ===== src/Error.antt =====
-- common/AppException.h: the exceptions that the server throws, each with its message.
use bit_atm.Prelude.{Str}

-- `poco` is a Poco::Exception that nothing translated; `std_error` is any other std::exception, such as std::out_of_range from std::stoi.
pub data Error : Type 0 where
  protocol network db crypto poco std_error : Str → Error

-- A computation that returns or throws.
pub data Result (A : Type 0) : Type 0 where
  ok : A → Result A
  err : Error → Result A

abbrev pub what : Error → Str
what (protocol m) = m
what (network m) = m
what (db m) = m
what (crypto m) = m
what (poco m) = m
what (std_error m) = m
