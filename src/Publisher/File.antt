-- ===== src/Publisher/File.antt =====
-- The publisher and the subscriber of one file.
use order_book_sketch.Dictionary.{Dictionary}
use order_book_sketch.OrderGenerator.{OrderGenerator}
use order_book_sketch.Subscriber.{Subscriber}
