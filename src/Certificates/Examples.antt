-- ===== src/Certificates/Examples.antt =====
-- A student who has completed the only lesson of a course.
use package.ayo_snbt_backend.Common.{◌≡◌, ◌||◌, true, false, none, some, [], ◌∷◌, any}
use package.ayo_snbt_backend.Courses.Data.{completed, Db}
use package.ayo_snbt_backend.Certificates.{CertificateDb, is_certificate, list_mine}
use package.ayo_snbt_backend.Certificates.Issued.{is_complete, list_mine_iff}

abbrev table : Db
table = record {
  courses = [];
  lessons =
      record {
        id = 6;
        course_id = 4;
        title = 1;
        sort_order = 1;
        video_id = none;
        is_free = false;
        deleted_at = none;
        updated_at = 0;
      }
      ∷ [];
  enrollments = record { user_id = 1; course_id = 4; is_active = true; enrolled_at = 12 } ∷ [];
  progress =
      record {
        id = 9;
        user_id = 1;
        lesson_id = 6;
        status = completed;
        progress_percent = 100;
        last_position_seconds = 0;
        completed_at = some 15;
        updated_at = 15;
      }
      ∷ [];
  wishlist = [];
  events = [];
  cache_version = 1;
}

abbrev state : CertificateDb
state = record { db = table; certificates = [] }

list_mine_iff_example :
    any (is_certificate 1 4) (list_mine 20 1 state).1.certificates
    ≡ (any (is_certificate 1 4) state.certificates || is_complete 1 4 table)
list_mine_iff_example = list_mine_iff 20 1 4 state
