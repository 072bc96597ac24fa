-- ===== src/Spm/Runs.antt =====
-- The connection of a device to the server of its SIM card, over all its requests.
use tdm.Base.{◌≡◌, Option, none, some, List}
use tdm.Base.Int.{ℤ}
use tdm.Session.{}
use tdm.Spm.{Card, Act}
use tdm.Spm.Answered.{}
use tdm.Spm.Sockets.{UsesSpm, IsRun}

-- What comes after the exchange uses no connection.
abbrev pub IsQuiet : Card → Card × List Act → Type 0
IsQuiet c (d, acts) = (d.socket_spm ≡ c.socket_spm) × ((h : List ℤ) → UsesSpm h acts h)

abbrev pub IfQuiet : Card → Option (Card × List Act) → Type 0
IfQuiet c none = Unit {0}
IfQuiet c (some r) = IsQuiet c r

-- A run, or a given case.
abbrev pub IsRunOr : Type 0 → ℤ → Option (Card × List Act) → Type 0
IsRunOr P fd none = P
IsRunOr P fd (some r) = IsRun fd r
