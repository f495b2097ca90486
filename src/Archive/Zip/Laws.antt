-- ===== src/Archive/Zip/Laws.antt =====
-- What unpackZip leaves in the file system.
use events_service.Base.{true, none, ◌≡◌, arith, some}
use events_service.FilePath.{FilePath, is_under}
use events_service.Archive.{FileSystem}
use events_service.Archive.Zip.{ZipInput, unpack_zip}

-- If unpackZip fails, nothing is left of the directory that it made: where there was nothing at or
-- below it before, there is nothing afterwards.
pub unpack_zip-cleanup :
    (z : ZipInput) (fs : FileSystem) (dest q : FilePath)
    → z.temp_dir ≡ some dest
    → is_under dest q ≡ true
    → fs q ≡ none
    → (unpack_zip z fs).1 ≡ none
    → (unpack_zip z fs).0 q ≡ none
unfolding unpack_zip
unpack_zip-cleanup z fs dest q e inside fresh failed = ground arith
