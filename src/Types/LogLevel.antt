-- ===== src/Types/LogLevel.antt =====
-- type.go, `LogLevel`: the constants, `logLevelMap` and `String`.
use go_lxc.Base.{
  ℕ, ◌≡◌, refl, zero, suc, none, some, List, [], ◌∷◌, Text, codes, ◌==◌, if◌then◌else◌, leb, lookup,
  arith,
}

abbrev pub trace : ℕ
trace = 0

abbrev pub debug : ℕ
debug = 1

abbrev pub info : ℕ
info = 2

abbrev pub notice : ℕ
notice = 3

abbrev pub warn : ℕ
warn = 4

abbrev pub error : ℕ
error = 5

abbrev pub crit : ℕ
crit = 6

abbrev pub alert : ℕ
alert = 7

abbrev pub fatal : ℕ
fatal = 8

-- `LogLevel.String`
unfoldable pub log_level_string : ℕ → Text
log_level_string l =
    if l == trace
    then codes "TRACE"
    else if l == debug
    then codes "DEBUG"
    else if l == info
    then codes "INFO"
    else if l == notice
    then codes "NOTICE"
    else if l == warn
    then codes "WARN"
    else if l == error
    then codes "ERROR"
    else if l == crit
    then codes "CRIT"
    else if l == alert
    then codes "ALERT"
    else if l == fatal
    then codes "FATAL"
    else codes "NOTSET"

-- `logLevelMap`
abbrev pub log_level_map : List (Text × ℕ)
log_level_map =
    (codes "TRACE", trace)
    ∷ (codes "DEBUG", debug)
    ∷ (codes "INFO", info)
    ∷ (codes "NOTICE", notice)
    ∷ (codes "WARN", warn)
    ∷ (codes "ERROR", error)
    ∷ (codes "CRIT", crit)
    ∷ (codes "ALERT", alert)
    ∷ (codes "FATAL", fatal)
    ∷ []

-- `logLevelMap[name]`, which is `TRACE` for a name that the map lacks.
unfoldable pub log_level_of : Text → ℕ
unfolding lookup
log_level_of name = elim (lookup name log_level_map) [ some l ↦ l | none ↦ 0 ]

-- The name of a level leads back to it; the name "NOTSET" of any other value leads to `TRACE`.
pub log_level_of-log_level_string :
    (l : ℕ) → log_level_of (log_level_string l) ≡ (if leb l fatal then l else trace)
unfolding log_level_of log_level_string
log_level_of-log_level_string zero = refl
log_level_of-log_level_string (suc zero) = refl
log_level_of-log_level_string (suc (suc zero)) = refl
log_level_of-log_level_string (suc (suc (suc zero))) = refl
log_level_of-log_level_string (suc (suc (suc (suc zero)))) = refl
log_level_of-log_level_string (suc (suc (suc (suc (suc zero))))) = refl
log_level_of-log_level_string (suc (suc (suc (suc (suc (suc zero)))))) = refl
log_level_of-log_level_string (suc (suc (suc (suc (suc (suc (suc zero))))))) = refl
log_level_of-log_level_string (suc (suc (suc (suc (suc (suc (suc (suc zero)))))))) = refl
log_level_of-log_level_string (suc (suc (suc (suc (suc (suc (suc (suc (suc n))))))))) = ground arith
