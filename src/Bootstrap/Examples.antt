-- ===== src/Bootstrap/Examples.antt =====
-- Two mounts, one with a colon in its path and one without a DNS name.
use queuezero.Prelude.{◌≡◌, List, [], ◌∷◌, map, arith}
use queuezero.Prelude.Texts.{codes}
use queuezero.Bootstrap.{Mount, format_mount_spec, parse_mount_spec}
use queuezero.Bootstrap.Mounts.{IsPlain, mount_codes, complete, parse-format}

abbrev mounts : List Mount
mounts =
    record { dns = "fs-1.efs"; path = "/data:scratch" } ∷ record { dns = ""; path = "/home" } ∷ []

scratch-IsPlain : IsPlain (record { dns = "fs-1.efs"; path = "/data:scratch" })
scratch-IsPlain = ground arith

home-IsPlain : IsPlain (record { dns = ""; path = "/home" })
home-IsPlain = ground arith

parse-format_example :
    parse_mount_spec (codes (format_mount_spec mounts)) ≡ map mount_codes (complete mounts)
parse-format_example = parse-format mounts (scratch-IsPlain, (home-IsPlain, tt))
