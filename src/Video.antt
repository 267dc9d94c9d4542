-- ===== src/Video.antt =====
-- modules/video/service.ts, and the renditions and the writes of modules/video/transcode.ts, on the
-- tables of the courses. Object storage, the encoder and the keys' texts are left out: a key is
-- given or not.
pub mod Streaming
use package.ayo_snbt_backend.Common.{
  ℕ, Bool, true, false, not, ◌&&◌, ◌||◌, Option, none, some, List, [], ◌∷◌, ◌++◌, ◌==◌, leb,
  if◌then◌else◌, is_some, any, first, select, update,
}
use package.ayo_snbt_backend.Common.Action.{
  Action, pure, throw, throw_if, or_throw, gets, modify, ◌>>=◌, ◌>>◌, bad_request_error,
  forbidden_error, not_found_error, bad_request, forbidden, bad_content_type, video_not_ready,
  enrollment_required,
}
use package.ayo_snbt_backend.Common.Keys.{by}
use package.ayo_snbt_backend.Courses.Data.{
  Course, Lesson, CourseEnrollment, not_deleted, is_enrollment,
}

pub data VideoStatus : Type 0 where
  uploaded processing ready failed : VideoStatus

abbrev pub is_uploaded : VideoStatus → Bool
is_uploaded uploaded = true
is_uploaded processing = false
is_uploaded ready = false
is_uploaded failed = false

abbrev pub is_processing : VideoStatus → Bool
is_processing processing = true
is_processing uploaded = false
is_processing ready = false
is_processing failed = false

abbrev pub is_ready : VideoStatus → Bool
is_ready ready = true
is_ready uploaded = false
is_ready processing = false
is_ready failed = false

-- `has_hls` says that the prefix and the keys of the playlist and the poster are set.
pub record Video : Type 0 where
  pub id : ℕ
  pub status : VideoStatus
  pub raw_key : Option ℕ
  pub has_hls : Bool
  pub duration_seconds : ℕ
  pub has_error : Bool
  pub is_deleted : Bool

-- The tables, and the transcoding jobs that were asked for, by the video and its raw key.
pub record VideoDb : Type 0 where
  pub videos : List Video
  pub lessons : List Lesson
  pub courses : List Course
  pub enrollments : List CourseEnrollment
  pub jobs : List (ℕ × ℕ)

pub record User : Type 0 where
  pub id : ℕ
  pub is_admin : Bool
  pub is_mentor : Bool

abbrev pub video_key : Video → ℕ
video_key v = v.id

abbrev pub is_live : ℕ → Video → Bool
is_live id v = (v.id == id) && not v.is_deleted

-- `videoRepo.findById`.
unfoldable pub find_video : ℕ → Action VideoDb (Option Video)
find_video id = gets (λ db. first (is_live id) db.videos)

abbrev pub update_video : ℕ → (Video → Video) → VideoDb → VideoDb
update_video id f db = record db { videos = update (by video_key id) f db.videos }

-- `create`.
unfoldable pub create : ℕ → Action VideoDb (Unit {0})
create id = modify (λ db. record db {
  videos =
      db.videos
      ++ record {
        id = id;
        status = uploaded;
        raw_key = none;
        has_hls = false;
        duration_seconds = 0;
        has_error = false;
        is_deleted = false;
      }
        ∷ [];
})

-- The content types of `presignUpload`; any other is none.
pub data ContentType : Type 0 where
  mp4 quicktime webm matroska : ContentType

-- `presignUpload`: `key` is the number of the key for the video and the content type.
unfoldable pub presign_upload : (ℕ → ContentType → ℕ) → ℕ → Option ContentType → Action VideoDb ℕ
unfolding find_video
presign_upload key id content_type = do
  found ← find_video id
  video ← or_throw found not_found_error
  throw_if (not (is_uploaded video.status)) (bad_request_error bad_request)
  type ← or_throw content_type (bad_request_error bad_content_type)
  modify (update_video id (λ v. record v { raw_key = some (key id type) }))
  pure (key id type)

-- `confirmUpload`: whether the job was queued already.
unfoldable pub confirm_upload : ℕ → Action VideoDb Bool
unfolding find_video
confirm_upload id = do
  found ← find_video id
  video ← or_throw found not_found_error
  raw ← or_throw video.raw_key (bad_request_error bad_request)
  if is_processing video.status then pure true else (do
    modify (update_video id (λ v. record v { status = processing; has_error = false }))
    modify (λ db. record db { jobs = db.jobs ++ (id, raw) ∷ [] })
    pure false)

pub data Rendition : Type 0 where
  p360 p480 p720 p1080 : Rendition

abbrev if_tall : Bool → Rendition → List Rendition
if_tall true r = r ∷ []
if_tall false r = []

-- `planRenditions`.
unfoldable pub plan_renditions : ℕ → List Rendition
plan_renditions height =
    p360
    ∷ (if_tall (leb 480 height) p480
        ++ if_tall (leb 720 height) p720
        ++ if_tall (leb 1_080 height) p1080)

-- What `processTranscodeJob` writes: `probed` is the duration, or none where a step of the work fails.
unfoldable pub process_transcode_job : ℕ → Option ℕ → VideoDb → VideoDb
process_transcode_job id none db =
    update_video id (λ v. record v { status = failed; has_error = true }) db
process_transcode_job id (some duration) db =
    update_video id
      (λ v. record v {
        status = ready;
        has_hls = true;
        duration_seconds = duration;
        has_error = false;
      })
      db

-- The loop of `assertCanStream` over the lessons of the video.
unfoldable pub may_stream : User → VideoDb → List Lesson → Bool
may_stream user db [] = false
may_stream user db (l ∷ ls) =
    let rest = may_stream user db ls in
    if l.is_free then true else elim (first (λ (c : Course). c.id == l.course_id) db.courses) [
      | none ↦ rest
      | some c ↦
          if user.is_admin || elim c.mentor_id [ none ↦ false | some m ↦ m == user.id ]
          then true
          else (if any (is_enrollment user.id c.id) db.enrollments then true else rest)
    ]

abbrev pub shows : ℕ → Lesson → Bool
shows video l = elim l.video_id [ none ↦ false | some v ↦ v == video ] && not_deleted l.deleted_at

abbrev pub is_empty {ℓ} : {A : Type ℓ} → List A → Bool
is_empty [] = true
is_empty (x ∷ xs) = false

-- `assertCanStream`.
unfoldable pub assert_can_stream : User → ℕ → Action VideoDb (Unit {0})
unfolding find_video may_stream
assert_can_stream user id = do
  found ← find_video id
  video ← or_throw found not_found_error
  throw_if (not (is_ready video.status)) (bad_request_error video_not_ready)
  rows ← gets (λ db. select (shows id) db.lessons)
  granted ← gets (λ db. may_stream user db rows)
  if is_empty rows
      then throw_if (not user.is_admin && not user.is_mentor) (forbidden_error forbidden)
      else throw_if (not granted) (forbidden_error enrollment_required)

-- `streamMasterPlaylist`, as far as it throws.
unfoldable pub stream_master_playlist : ℕ → Action VideoDb (Unit {0})
unfolding find_video
stream_master_playlist id = do
  found ← find_video id
  video ← or_throw found (bad_request_error video_not_ready)
  throw_if (not video.has_hls) (bad_request_error video_not_ready)
