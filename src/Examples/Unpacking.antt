-- ===== src/Examples/Unpacking.antt =====
-- Archives at concrete inputs.
use events_service.Base.{
  List, [], ◌∷◌, true, false, none, some, ◌≡◌, refl, if◌then◌else◌, ◌||◌, ◌==◌, string_eq,
}
use events_service.FilePath.{FilePath, join, is_under, parent}
use events_service.Archive.{
  FileSystem, directory, file, Header, Content, type_reg, TarInput, unpack_tar,
}
use events_service.Archive.Escape.{unpack_tar-escape}

-- A file system with the directories /tmp and /etc.
abbrev disk : FileSystem
disk [] = none
disk (top ∷ []) = if top == "tmp" || top == "etc" then some directory else none
disk (top ∷ x ∷ p) = none

abbrev temp : FilePath
temp = "tmp" ∷ "x" ∷ []

abbrev text : Content
text = record { bytes = 1 ∷ 2 ∷ []; complete = true }

abbrev script : Header
script = record { name = "index.js"; typeflag = type_reg text }

abbrev nested : Header
nested = record { name = "lib/index.js"; typeflag = type_reg text }

abbrev archive_of : List Header → TarInput
archive_of hs = record {
  opens = true;
  gzip_opens = true;
  temp_dir = some temp;
  headers = hs;
  ends_in_eof = true;
}

abbrev escaping : Header
escaping = record { name = "../../etc/cron"; typeflag = type_reg text }

unpack_tar-escape_example :
    (unpack_tar false
        (record {
          opens = true;
          gzip_opens = false;
          temp_dir = some temp;
          headers = escaping ∷ [];
          ends_in_eof = false;
        })
        disk).0
      (join temp "../../etc/cron")
    ≡ some (file (1 ∷ 2 ∷ []))
unfolding is_under join parent
unpack_tar-escape_example = unpack_tar-escape disk temp escaping text false refl refl refl refl
