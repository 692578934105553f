-- ===== src/Services/Qos/Tests.antt =====
-- A line of io.max with one limit.
use arca_storage.Base.{◌≡◌, refl, none, some, pos, [], ◌∷◌, ◌++◌, codes, strip}
use arca_storage.Results.{ok}
use arca_storage.Services.Qos.IoMax.{Limits, io_max_content, parse_io_max}
use arca_storage.Services.Qos.Lines.{IsPart}
use arca_storage.Services.Qos.RoundTrip.{kernel_line, parse_io_max-limits}

abbrev one_limit : Limits
one_limit = record {
  read_bps = some (pos 1048576);
  write_bps = none;
  read_iops = none;
  write_iops = none;
}

device_IsPart : IsPart (codes "253:4")
device_IsPart = (refl, (refl, (refl, (refl, (refl, (refl, tt))))))

parse_io_max-limits_example :
    (parse_io_max (codes "253:4") (strip (io_max_content (codes "253:4") one_limit)) ≡ ok one_limit)
    × (parse_io_max (codes "253:4") (strip (kernel_line (codes "253:4") one_limit ++ 10 ∷ []))
        ≡ ok one_limit)
parse_io_max-limits_example = parse_io_max-limits (codes "253:4") one_limit device_IsPart
