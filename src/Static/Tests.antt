-- ===== src/Static/Tests.antt =====
-- The path helpers at concrete inputs.
use c_http.Base.{◌≡◌, ◌↔◌, some, codes, arith}
use c_http.Static.{extract_suffix}
use c_http.Static.Suffix.{Below, extract_suffix-Below}

extract_suffix-Below_example :
    (extract_suffix (codes "/a") (codes "/a/b") ≡ some (codes "b"))
    ↔ Below (codes "/a") (codes "/a/b") (codes "b")
extract_suffix-Below_example =
    extract_suffix-Below (codes "/a") (codes "/a/b") (codes "b")
      (omega arith, (omega arith, (omega arith, (omega arith, tt))))
